-- ===== src/Desktop/Socks/Bridge.antt =====
-- `bridgeViaBackend` in TON-Tunnel/LocalSocks5Server.cpp, with a core: the stream is opened, its frames
-- are written to the client, and it is closed. The uplink thread is seen by the flag that it clears.
-- The direct connection without a core is not modelled.
pub mod Writes
use ton_tunnel.Base.{
  ℕ, List, [], ◌∷◌, ◌++◌, Bool, true, false, not, ◌||◌, Option, none, some, Bytes, if◌then◌else◌,
}
use ton_tunnel.Desktop.Codec.{
  FrameType, unknown, open_type, data_type, close_type, error_type, unnamed, InboundFrame,
}
use ton_tunnel.Desktop.Core.{
  Core, OpenResult, opened, send_failed, timed_out, refused, closed_early, waiting, Round,
  await_stream_frame, receive_packets, open_stream, close_stream, unregister_stream,
}

-- A round of the loop that writes to the client: whether `alive` and `running_` hold at its test, the
-- packets that the core took during its wait, and whether sendAll takes the bytes.
pub record DownRound : Type 0 where
  pub alive : Bool
  pub arrived : List Bytes
  pub takes : Bool

-- How the loop was left; `going` is not yet.
pub data DownEnd : Type 0 where
  going local_ended remote_ended : DownEnd

-- What a frame makes of a round: an end, or bytes to write.
pub data DownStep : Type 0 where
  write : (bytes : Bytes) → DownStep
  skip finish : DownStep

unfoldable pub step_of : Option InboundFrame → DownStep
step_of none = skip
step_of (some f) = elim f.type [
  | data_type ↦ elim f.payload [ [] ↦ skip | b ∷ bs ↦ write (b ∷ bs) ]
  | close_type ↦ finish
  | error_type ↦ finish
  | open_type ↦ skip
  | unknown ↦ skip
  | unnamed b ↦ skip
]

pub record Down : Type 0 where
  pub core : Core
  pub written : Bytes
  pub left : DownEnd

unfoldable pub down_loop : List DownRound → ℕ → Core → Bytes → Down
down_loop [] id c out = record { core = c; written = out; left = going }
down_loop (r ∷ rounds) id c out =
    let (frame, after) = await_stream_frame id (receive_packets r.arrived c) in
    if not r.alive
    then record { core = c; written = out; left = local_ended }
    else elim (step_of frame) [
      | skip ↦ down_loop rounds id after out
      | finish ↦ record { core = after; written = out; left = remote_ended }
      | write bytes ↦
          if r.takes
          then down_loop rounds id after (out ++ bytes)
          else record { core = after; written = out; left = local_ended }
    ]

-- Behind the loop: CLOSE is sent unless the other side ended the stream, whose queue then goes.
unfoldable pub finish_bridge : ℕ → Down → Core
finish_bridge id d = elim d.left [
  | going ↦ d.core
  | local_ended ↦ unregister_stream id (close_stream id d.core)
  | remote_ended ↦ unregister_stream id d.core
]

-- The bytes written to the client, and whether the stream was opened.
unfoldable pub bridge_opened : List DownRound → ℕ → Core × OpenResult → Core × (Bytes × Bool)
bridge_opened rounds id (c, opened) =
    let d = down_loop rounds id c [] in (finish_bridge id d, (d.written, true))
bridge_opened rounds id (c, send_failed) = (unregister_stream id c, ([], false))
bridge_opened rounds id (c, timed_out) = (unregister_stream id c, ([], false))
bridge_opened rounds id (c, refused) = (unregister_stream id c, ([], false))
bridge_opened rounds id (c, closed_early) = (unregister_stream id c, ([], false))
bridge_opened rounds id (c, waiting) = (c, ([], false))

unfoldable pub bridge_via_backend :
    Bool
    → ℕ
    → ℕ
    → List Round
    → List DownRound
    → ℕ
    → Bytes
    → ℕ
    → Bytes
    → Core
    → Core × (Bytes × Bool)
bridge_via_backend taken pending_at start rounds downs id host port token c =
    bridge_opened downs id (open_stream taken pending_at start rounds id host port token c)
