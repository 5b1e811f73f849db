-- ===== src/Tests/Formats.antt =====
-- The codecs' theorems at concrete frames.
use ton_tunnel.Base.{ℕ, ◌+◌, ◌≤◌, ◌≡◌, ◌≢◌, refl, [], ◌∷◌, none, some, Bytes, codes, arith, nat_eq}
use ton_tunnel.Protocol.{decode_message}
use ton_tunnel.Hope.{Message, open_request, open_ack, payload, close, batch, frame, size, Fits}
use ton_tunnel.Hope.Server.{decoded, decode_message-frame}
use ton_tunnel.Hope.Inbound.{inbounds, decode_inbound_frames-batch}
use ton_tunnel.Desktop.Codec.{decode_inbound_frames}
use ton_tunnel.Egress.Frames.{try_get_frame_length}
use ton_tunnel.Egress.Frames.Split.{try_get_frame_length-frame}
use ton_tunnel.Egress.Frames.Agree.{framed-decodes}
use ton_tunnel.Wire.{digits_u32}
use ton_tunnel.Tests.World.{host}

abbrev ping : Bytes
ping = codes "ping"

abbrev request : Message
request = open_request 5 host 443 (codes "secret")

request-Fits : Fits request
request-Fits = (omega arith, omega arith, omega arith, omega arith)

ping-Fits : Fits (payload 5 ping)
ping-Fits = (omega arith, omega arith)

no_ack : (id : ℕ) → request ≢ open_ack id
no_ack id e = cc

decode_message-frame_example : decode_message (frame request ping) ≡ decoded request
decode_message-frame_example =
    decode_message-frame request ping request-Fits (λ id e. absurd (no_ack id e))

decode_inbound_frames-batch_example :
    decode_inbound_frames (batch (payload 5 ping ∷ close 5 ∷ []))
    ≡ inbounds (payload 5 ping ∷ close 5 ∷ [])
decode_inbound_frames-batch_example =
    decode_inbound_frames-batch (payload 5 ping ∷ close 5 ∷ []) (ping-Fits, (omega arith, tt))
      ((λ id e. absurd (payload_no_ack id e)), ((λ id e. refl), tt))
  where
    payload_no_ack : (id : ℕ) → payload 5 ping ≢ open_ack id
    payload_no_ack id e = cc

framed-decodes_example : (5 ≤ 5) × (0 + 5 ≤ 5) × (decode_message (3 ∷ 0 ∷ 0 ∷ 0 ∷ 5 ∷ []) ≢ none)
unfolding frame size digits_u32
framed-decodes_example = framed-decodes (3 ∷ 0 ∷ 0 ∷ 0 ∷ 5 ∷ []) 0 5 framed
  where
    framed : try_get_frame_length (3 ∷ 0 ∷ 0 ∷ 0 ∷ 5 ∷ []) 0 ≡ some 5
    framed = try_get_frame_length-frame [] [] (close 5) (omega arith) (λ id e. cc)
