-- ===== src/Desktop/Core/Opening.antt =====
-- `openStream` of TON-Tunnel/TonClientCore.cpp: how it ends, and what its counters say.
use ton_tunnel.Base.{
  ℕ, ◌+◌, ◌≤◌, ◌≡◌, ◌≢◌, ◌⊎◌, refl, sym, subst, List, [], ◌∷◌, ◌++◌, Bool, true, false, Option,
  none, some, Bytes, leb, arith, Bool-cases, Option-cases, inl, inr, lookup, insert, nat_eq,
}
use ton_tunnel.Desktop.Codec.{
  FrameType, unknown, open_type, data_type, close_type, error_type, unnamed, InboundFrame,
}
use ton_tunnel.Desktop.Core.{
  Core, Round, OpenResult, opened, send_failed, timed_out, refused, closed_early, waiting, Verdict,
  decided, go_on, judge, grace_over, finish_open, open_loop, open_stream, receive_packet,
  receive_packets, await_stream_frame, send_packet, register_stream,
}

-- What a result adds to the counters of opened, failed and timed-out calls.
abbrev pub ok_of : OpenResult → ℕ
ok_of opened = 1
ok_of send_failed = 0
ok_of timed_out = 0
ok_of refused = 0
ok_of closed_early = 0
ok_of waiting = 0

abbrev pub fail_of : OpenResult → ℕ
fail_of opened = 0
fail_of send_failed = 1
fail_of timed_out = 0
fail_of refused = 1
fail_of closed_early = 1
fail_of waiting = 0

abbrev pub timeout_of : OpenResult → ℕ
timeout_of opened = 0
timeout_of send_failed = 0
timeout_of timed_out = 1
timeout_of refused = 0
timeout_of closed_early = 0
timeout_of waiting = 0

-- From c to d the counters went up by what the result adds to each.
pub record Counted (result : OpenResult) (c d : Core) : Type 0 where
  pub opened_calls : d.open_ok ≡ c.open_ok + ok_of result
  pub failed_calls : d.open_fail ≡ c.open_fail + fail_of result
  pub timed_out_calls : d.open_timeout ≡ c.open_timeout + timeout_of result

-- None of the counters has moved.
abbrev Kept : Core → Core → Type 0
Kept c d = Counted waiting c d

finish_open-result : (id : ℕ) (r : OpenResult) (c : Core) → (finish_open id r c).1 ≡ r
unfolding finish_open
finish_open-result id opened c = refl
finish_open-result id send_failed c = refl
finish_open-result id timed_out c = refl
finish_open-result id refused c = refl
finish_open-result id closed_early c = refl
finish_open-result id waiting c = refl

finish_open-Counted :
    (id : ℕ) (r : OpenResult) (c d : Core) → Kept c d → Counted r c (finish_open id r d).0
unfolding finish_open
finish_open-Counted id opened c d k = record {
  opened_calls = omega (arith, k.opened_calls);
  failed_calls = k.failed_calls;
  timed_out_calls = k.timed_out_calls;
}
finish_open-Counted id send_failed c d k = record {
  opened_calls = k.opened_calls;
  failed_calls = omega (arith, k.failed_calls);
  timed_out_calls = k.timed_out_calls;
}
finish_open-Counted id timed_out c d k = record {
  opened_calls = k.opened_calls;
  failed_calls = k.failed_calls;
  timed_out_calls = omega (arith, k.timed_out_calls);
}
finish_open-Counted id refused c d k = record {
  opened_calls = k.opened_calls;
  failed_calls = omega (arith, k.failed_calls);
  timed_out_calls = k.timed_out_calls;
}
finish_open-Counted id closed_early c d k = record {
  opened_calls = k.opened_calls;
  failed_calls = omega (arith, k.failed_calls);
  timed_out_calls = k.timed_out_calls;
}
finish_open-Counted id waiting c d k = k

Kept-refl : (c : Core) → Kept c c
Kept-refl c = record {
  opened_calls = omega arith;
  failed_calls = omega arith;
  timed_out_calls = omega arith;
}

receive_packets-Kept : (ps : List Bytes) (c d : Core) → Kept c d → Kept c (receive_packets ps d)
unfolding receive_packets receive_packet
receive_packets-Kept [] c d k = k
receive_packets-Kept (p ∷ ps) c d k = receive_packets-Kept ps c (receive_packet p d) (record {
  opened_calls = k.opened_calls;
  failed_calls = k.failed_calls;
  timed_out_calls = k.timed_out_calls;
})

await_stream_frame-Kept : (id : ℕ) (c d : Core) → Kept c d → Kept c (await_stream_frame id d).1
unfolding await_stream_frame
await_stream_frame-Kept id c d k = elim (Option-cases (lookup id d.stream_queues)) [
  | inl e ↦ rw (e, await_stream_frame) k
  | inr ([], e) ↦ rw (e, await_stream_frame) k
  | inr (f ∷ q, e) ↦
      rw (e, await_stream_frame)
        (record {
          opened_calls = k.opened_calls;
          failed_calls = k.failed_calls;
          timed_out_calls = k.timed_out_calls;
        })
]

-- A frame decides for success or refusal, or lets the loop go on.
abbrev Judged : Verdict → Type 0
Judged v = (v ≡ decided opened) ⊎ ((v ≡ decided refused) ⊎ ((seen : Option ℕ) × (v ≡ go_on seen)))

judge-Judged :
    (now : ℕ) (seen : Option ℕ) (frame : Option InboundFrame) → Judged (judge now seen frame)
unfolding judge
judge-Judged now seen none = inr (inr (seen, refl))
judge-Judged now seen (some f) = go f.type refl
  where
    go : (t : FrameType) → f.type ≡ t → Judged (judge now seen (some f))
    go open_type e = rw (e, judge) (inl refl)
    go error_type e = rw (e, judge) (inr (inl refl))
    go close_type e = elim (Option-cases seen) [
      | inl s ↦ rw (e, judge, s) (inr (inr (some now, refl)))
      | inr (t, s) ↦ rw (e, judge, s) (inr (inr (some t, refl)))
    ]
    go data_type e = rw (e, judge) (inr (inr (seen, refl)))
    go unknown e = rw (e, judge) (inr (inr (seen, refl)))
    go (unnamed b) e = rw (e, judge) (inr (inr (seen, refl)))

-- A pair of a core and a result, as the functions answer.
abbrev Ends : Core → Core × OpenResult → Type 0
Ends c r = Counted r.1 c r.0

finish_open-Ends :
    (id : ℕ) (result : OpenResult) (c d : Core) → Kept c d → Ends c (finish_open id result d)
finish_open-Ends id result c d k =
    subst (λ r. Counted r c (finish_open id result d).0) (sym (finish_open-result id result d))
      (finish_open-Counted id result c d k)

open_loop-Ends :
    (rounds : List Round) (id deadline : ℕ) (seen : Option ℕ) (c d : Core)
    → Kept c d
    → Ends c (open_loop rounds id deadline seen d)
unfolding open_loop
open_loop-Ends [] id deadline seen c d k = k
open_loop-Ends (r ∷ rounds) id deadline seen c d k =
    let after = await_stream_frame id (receive_packets r.arrived d) in
    let kept : Kept c after.1 =
      await_stream_frame-Kept id c (receive_packets r.arrived d)
        (receive_packets-Kept r.arrived c d k) in
    elim (Bool-cases (leb deadline r.now)) [
      | inl late ↦ rw (late, open_loop) (finish_open-Ends id timed_out c d k)
      | inr early ↦ elim (Bool-cases (grace_over r.grace_now seen)) [
        | inl over ↦ rw (early, open_loop, over) (finish_open-Ends id closed_early c d k)
        | inr within ↦ elim (judge-Judged r.close_now seen after.0) [
          | inl j ↦ rw (early, open_loop, within, j) (finish_open-Ends id opened c after.1 kept)
          | inr (inl j) ↦
              rw (early, open_loop, within, j) (finish_open-Ends id refused c after.1 kept)
          | inr (inr (s, j)) ↦
              rw (early, open_loop, within, j) (open_loop-Ends rounds id deadline s c after.1 kept)
        ]
      ]
    ]

register_stream-Kept : (id : ℕ) (c : Core) → Kept c (register_stream id c)
unfolding register_stream
register_stream-Kept id c = elim (Option-cases (lookup id c.stream_queues)) [
  | inl e ↦
      rw (e, register_stream)
        (record {
          opened_calls = omega arith;
          failed_calls = omega arith;
          timed_out_calls = omega arith;
        })
  | inr (q, e) ↦ rw (e, register_stream) (Kept-refl c)
]

-- What openStream sends before its loop leaves the counters.
sent-Kept :
    (id start : ℕ) (frame : Bytes) (c : Core)
    → Kept c (
        send_packet frame (record (register_stream id c) {
          pending_open_ms = insert id start (register_stream id c).pending_open_ms;
        }))
unfolding send_packet
sent-Kept id start frame c =
    let k = register_stream-Kept id c in
    record {
      opened_calls = k.opened_calls;
      failed_calls = k.failed_calls;
      timed_out_calls = k.timed_out_calls;
    }

-- A call of openStream raises by one the counter of opened calls if it returns 0, that of timed-
-- out calls if it returns -2, and that of failed calls if it returns otherwise; the other two
-- stay, and all three while it has not returned.
pub open_stream-ended :
    (taken : Bool) (pending_at start : ℕ) (rounds : List Round) (id : ℕ) (host : Bytes) (port : ℕ)
    (token : Bytes) (c : Core)
    → let r = open_stream taken pending_at start rounds id host port token c in Counted r.1 c r.0
unfolding open_stream
open_stream-ended true pending_at start rounds id host port token c =
    open_loop-Ends rounds id (start + 20000) none c _ (sent-Kept id pending_at _ c)
open_stream-ended false pending_at start rounds id host port token c =
    finish_open-Ends id send_failed c _ (sent-Kept id pending_at _ c)

-- The loop ends at the deadline at the latest.
open_loop-ends :
    (before : List Round) (r : Round) (after : List Round) (id deadline : ℕ) (seen : Option ℕ)
    (c : Core)
    → deadline ≤ r.now
    → (open_loop (before ++ r ∷ after) id deadline seen c).1 ≢ waiting
unfolding open_loop
open_loop-ends [] r after id deadline seen c h =
    let late : leb deadline r.now ≡ true = ground (arith, h) in
    rw (late, open_loop, finish_open-result id timed_out c) (λ e. cc)
open_loop-ends (b ∷ before) r after id deadline seen c h =
    let next = await_stream_frame id (receive_packets b.arrived c) in
    elim (Bool-cases (leb deadline b.now)) [
      | inl late ↦ rw (late, open_loop, finish_open-result id timed_out c) (λ e. cc)
      | inr early ↦ elim (Bool-cases (grace_over b.grace_now seen)) [
        | inl over ↦ rw (early, open_loop, over, finish_open-result id closed_early c) (λ e. cc)
        | inr within ↦ elim (judge-Judged b.close_now seen next.0) [
          | inl j ↦ rw (early, open_loop, within, j, finish_open-result id opened next.1) (λ e. cc)
          | inr (inl j) ↦
              rw (early, open_loop, within, j, finish_open-result id refused next.1) (λ e. cc)
          | inr (inr (s, j)) ↦
              rw (early, open_loop, within, j)
                (open_loop-ends before r after id deadline s next.1 h)
        ]
      ]
    ]

-- openStream returns once its clock has passed twenty seconds, whatever came before and comes
-- after.
pub open_stream-ends :
    (taken : Bool) (pending_at start : ℕ) (before : List Round) (r : Round) (after : List Round)
    (id : ℕ) (host : Bytes) (port : ℕ) (token : Bytes) (c : Core)
    → start + 20000 ≤ r.now
    → (open_stream taken pending_at start (before ++ r ∷ after) id host port token c).1 ≢ waiting
unfolding open_stream
open_stream-ends true pending_at start before r after id host port token c h =
    open_loop-ends before r after id (start + 20000) none _ h
open_stream-ends false pending_at start before r after id host port token c h =
    rw (finish_open-result id send_failed _) (λ e. cc)
