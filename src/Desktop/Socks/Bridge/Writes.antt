-- ===== src/Desktop/Socks/Bridge/Writes.antt =====
-- What the loop of TON-Tunnel/LocalSocks5Server.cpp writes to its client.
use ton_tunnel.Base.{
  subst, ℕ, zero, suc, ◌≡◌, refl, sym, ap, ◌∙◌, List, [], ◌∷◌, ◌++◌, append-nil, append_assoc, true,
  some, Bytes, length, lookup, insert, lookup-insert_self, nat_eq, All,
}
use ton_tunnel.Desktop.Codec.{data_type, close_type, InboundFrame}
use ton_tunnel.Desktop.Core.{Core, await_stream_frame, receive_packets}
use ton_tunnel.Desktop.Socks.Bridge.{
  DownRound, remote_ended, write, skip, finish, step_of, Down, down_loop,
}

-- The payloads of frames, one after another.
unfoldable pub payloads : List InboundFrame → Bytes
payloads [] = []
payloads (f ∷ fs) = f.payload ++ payloads fs

-- A round in which nothing arrives and the client takes what it is sent.
abbrev pub quiet : DownRound
quiet = record { alive = true; arrived = []; takes = true }

unfoldable pub quiet_rounds : ℕ → List DownRound
quiet_rounds zero = []
quiet_rounds (suc k) = quiet ∷ quiet_rounds k

awaited :
    (id : ℕ) (f : InboundFrame) (q : List InboundFrame) (c : Core)
    → lookup id c.stream_queues ≡ some (f ∷ q)
    → await_stream_frame id c ≡ (some f, record c { stream_queues = insert id q c.stream_queues })
unfolding await_stream_frame
awaited id f q c e = rw (e, await_stream_frame) refl

-- The loop has written these bytes and was left for the other side's end.
abbrev pub IsDone : Down → Bytes → Type 0
IsDone d bytes = (d.written ≡ bytes) × (d.left ≡ remote_ended)

-- A frame of data at the front, before rounds that write `tail` on top of anything.
data_first :
    (id : ℕ) (f : InboundFrame) (q : List InboundFrame) (rounds : List DownRound) (c : Core)
    (out tail : Bytes)
    → f.type ≡ data_type
    → lookup id c.stream_queues ≡ some (f ∷ q)
    → ((written : Bytes)
        → IsDone (down_loop rounds id (await_stream_frame id c).1 written) (written ++ tail))
    → IsDone (down_loop (quiet ∷ rounds) id c out) (out ++ (f.payload ++ tail))
unfolding down_loop receive_packets step_of
data_first id f q rounds c out tail d e h = go f.payload refl
  where
    go :
        (bytes : Bytes)
        → f.payload ≡ bytes
        → IsDone (down_loop (quiet ∷ rounds) id c out) (out ++ (f.payload ++ tail))
    go [] p =
        let nothing : step_of (some f) ≡ skip = rw (d, step_of, p) refl in
        rw (ap (λ x. x.0) (awaited id f q c e), down_loop, nothing, p) (h out)
    go (b ∷ bs) p =
        let some_bytes : step_of (some f) ≡ write (b ∷ bs) = rw (d, step_of, p) refl in
        let rest = h (out ++ b ∷ bs) in
        rw (ap (λ x. x.0) (awaited id f q c e), down_loop, some_bytes, p)
          (rest.0 ∙ append_assoc out (b ∷ bs) tail, rest.1)

-- With frames of data and then a CLOSE in the stream's queue, and a client that takes what it is
-- sent while nothing else arrives, the loop writes the payloads in order and is left for the other
-- side's end.
pub down_loop-IsDone :
    (id : ℕ) (fs : List InboundFrame) (last : InboundFrame) (rest : List InboundFrame) (c : Core)
    (out : Bytes)
    → All (λ f. f.type ≡ data_type) fs
    → last.type ≡ close_type
    → lookup id c.stream_queues ≡ some (fs ++ last ∷ rest)
    → IsDone (down_loop (quiet_rounds (suc (length fs))) id c out) (out ++ payloads fs)
unfolding down_loop quiet_rounds payloads receive_packets step_of
down_loop-IsDone id [] last rest c out d l e =
    let done : step_of (some last) ≡ finish = rw (l, step_of) refl in
    rw (awaited id last rest c e, down_loop, done, append-nil out) (refl, refl)
down_loop-IsDone id (f ∷ fs) last rest c out d l e =
    let q = fs ++ last ∷ rest in
    let queued = lookup-insert_self id q c.stream_queues in
    data_first id f q (quiet_rounds (suc (length fs))) c out (payloads fs) d.0 e (λ written.
      subst
        (λ m.
          IsDone (down_loop (quiet_rounds (suc (length fs))) id m written) (written ++ payloads fs))
        (sym (ap (λ x. x.1) (awaited id f q c e)))
        (down_loop-IsDone id fs last rest (record c { stream_queues = insert id q c.stream_queues })
          written d.1 l queued))
