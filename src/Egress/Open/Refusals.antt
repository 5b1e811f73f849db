-- ===== src/Egress/Open/Refusals.antt =====
-- What `handleOpen` (ton-egress-node/src/egress_node.cpp) does with an OPEN that fails a check.
use ton_tunnel.Base.{
  ℕ, ◌+◌, ◌≡◌, refl, subst, Option-cases, ◌⊎◌, inl, inr, ◌∷◌, Bytes, codes, arith,
}
use ton_tunnel.Protocol.{encode_error}
use ton_tunnel.Egress.State.{Node, sent, send_error}
use ton_tunnel.Egress.Connect.{Net}
use ton_tunnel.Egress.Open.{
  Refusal, egress_disabled, invalid_host, port_not_allowed, host_blocked, unauthorized,
  max_streams_reached, refusal_text, refusal, refuse, touch_client, resolve_and_connect,
  handle_open,
}
use ton_tunnel.Egress.Open.Guards.{Unchanged, refuse-Unchanged}
use ton_tunnel.Egress.Open.Checks.{Finds, FailsFirst, PassesAll, refusal-Finds}

-- The texts of the errors, and what a refusal adds to the failed OPENs.
abbrev pub error_text : Refusal → Bytes
error_text egress_disabled = codes "egress disabled"
error_text invalid_host = codes "invalid host"
error_text port_not_allowed = codes "port is not allowed"
error_text host_blocked = codes "host is blocked"
error_text unauthorized = codes "unauthorized"
error_text max_streams_reached = codes "max streams reached"

abbrev pub failures : Refusal → ℕ
failures egress_disabled = 0
failures invalid_host = 0
failures port_not_allowed = 0
failures host_blocked = 0
failures unauthorized = 1
failures max_streams_reached = 0

-- From n to m the node answered with one error and left its streams.
pub record Answered (c : Bytes) (id : ℕ) (r : Refusal) (n m : Node) : Type 0 where
  pub answer :
      m.log ≡ sent c (encode_error (record { stream_id = id; message = error_text r })) ∷ n.log
  pub unchanged : Unchanged n m
  pub graces_same : m.recently_closed ≡ n.recently_closed
  pub counted : m.counters.open_fail ≡ n.counters.open_fail + failures r

refuse-Answered :
    (c : Bytes) (id : ℕ) (r : Refusal) (n : Node) → Answered c id r n (refuse c id r n)
unfolding refuse send_error refusal_text touch_client
refuse-Answered c id egress_disabled n = record {
  answer = refl;
  unchanged = refuse-Unchanged c id egress_disabled n;
  graces_same = refl;
  counted = omega arith;
}
refuse-Answered c id invalid_host n = record {
  answer = refl;
  unchanged = refuse-Unchanged c id invalid_host n;
  graces_same = refl;
  counted = omega arith;
}
refuse-Answered c id port_not_allowed n = record {
  answer = refl;
  unchanged = refuse-Unchanged c id port_not_allowed n;
  graces_same = refl;
  counted = omega arith;
}
refuse-Answered c id host_blocked n = record {
  answer = refl;
  unchanged = refuse-Unchanged c id host_blocked n;
  graces_same = refl;
  counted = omega arith;
}
refuse-Answered c id unauthorized n = record {
  answer = refl;
  unchanged = refuse-Unchanged c id unauthorized n;
  graces_same = refl;
  counted = omega arith;
}
refuse-Answered c id max_streams_reached n = record {
  answer = refl;
  unchanged = refuse-Unchanged c id max_streams_reached n;
  graces_same = refl;
  counted = omega arith;
}

-- Every OPEN either fails a check, and is then answered by exactly one ERROR with the text of the
-- first check that it fails, in the order of enabled, host, port, blocked host, authorisation and
-- limit, with the streams and the counts left as they are and one failed OPEN counted if it is
-- unauthorized; or it passes all of them, each said in terms of the configuration, and goes on to
-- the name's resolution.
pub handle_open-refused :
    (net : Net) (now : ℕ) (c : Bytes) (id : ℕ) (host : Bytes) (port : ℕ) (token : Bytes) (n : Node)
    → let m = handle_open net now c id host port token n in
      ((r : Refusal) × FailsFirst c host port token n r × Answered c id r n m)
      ⊎ (PassesAll c host port token n
          × (m ≡ resolve_and_connect net now c id host port (touch_client c n)))
unfolding handle_open
handle_open-refused net now c id host port token n =
    let finds = refusal-Finds c host port token n in
    elim (Option-cases (refusal n c host port token)) [
      | inl e ↦ inr (subst (Finds c host port token n) e finds, rw (e, handle_open) refl)
      | inr (r, e) ↦ inl (
        r,
        subst (Finds c host port token n) e finds,
        rw (e, handle_open) (refuse-Answered c id r n),
      )
    ]
