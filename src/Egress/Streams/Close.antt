-- ===== src/Egress/Streams/Close.antt =====
-- What `closeStream` (ton-egress-node/src/egress_node.cpp) does on every branch.
use ton_tunnel.Base.{
  ℕ, ◌≡◌, inl, inr, refl, true, false, none, some, Bytes, lookup, insert, erase, lookup-erase,
  lookup-insert_self, bytes_eq, get_elem?, arith, Option-cases, if◌then◌else◌, bytes_beq,
  bytes_beq_iff,
}
use ton_tunnel.Egress.State.{Node, Stream, key_for}
use ton_tunnel.Egress.Streams.{
  Reason, count_close, note_closed, remove_entry, release_fd, finish_stream, close_stream,
}

pub remove_entry-fields :
    (now : ℕ) (c : Bytes) (id : ℕ) (n : Node)
    → let m = remove_entry now c id n in
      (m.streams ≡ erase (key_for c id) n.streams)
      × (m.objects ≡ n.objects)
      × (m.recently_closed ≡ insert (key_for c id) now n.recently_closed)
      × (m.log ≡ n.log)
      × (m.config ≡ n.config)
unfolding remove_entry
remove_entry-fields now c id n = ground arith

pub finish_stream-keeps :
    (c : Bytes) (id p : ℕ) (s : Stream) (n : Node)
    → ((finish_stream c id p s n).streams ≡ n.streams)
      × ((finish_stream c id p s n).recently_closed ≡ n.recently_closed)
      × ((finish_stream c id p s n).streams_per_client ≡ n.streams_per_client)
      × ((finish_stream c id p s n).config ≡ n.config)
unfolding finish_stream release_fd
finish_stream-keeps c id p s n = ground arith

module _ (now : ℕ) (c : Bytes) (id : ℕ) (reason : Reason) (n : Node) where
  abbrev key : Bytes
  key = key_for c id

  abbrev pub counted : Node
  counted = record n { counters = count_close reason n.counters }

  pub close_stream-absent :
      lookup key n.streams ≡ none
      → close_stream now c id reason n ≡ (note_closed key now counted, false)
  unfolding close_stream
  close_stream-absent e = rw (e, close_stream)

  pub close_stream-present :
      (p : ℕ) (s : Stream)
      → lookup key n.streams ≡ some p
      → get_elem? n.objects p ≡ some s
      → close_stream now c id reason n
        ≡ (finish_stream c id p s (remove_entry now c id counted), true)
  unfolding close_stream
  close_stream-present p s e o = rw (e, close_stream, o)

  -- After closeStream the stream's key, and no other, is gone from the table.
  pub close_stream-table :
      (k : Bytes)
      → lookup k (close_stream now c id reason n).0.streams
        ≡ (if bytes_beq key k then none else lookup k n.streams)
  unfolding close_stream note_closed
  close_stream-table k = elim (Option-cases (lookup key n.streams)) [
    | inl e ↦ rw (e, close_stream) (ground (arith, bytes_beq_iff key k))
    | inr (p, e) ↦ elim (Option-cases (get_elem? n.objects p)) [
      | inl o ↦
          rw (e, close_stream, o)
            (ground (arith, remove_entry-fields now c id counted, lookup-erase key k n.streams))
      | inr (s, o) ↦
          rw (e, close_stream, o)
            (ground (
              arith,
              remove_entry-fields now c id counted,
              finish_stream-keeps c id p s (remove_entry now c id counted),
              lookup-erase key k n.streams,
            ))
    ]
  ]

  pub close_stream-config : (close_stream now c id reason n).0.config ≡ n.config
  unfolding close_stream note_closed
  close_stream-config = elim (Option-cases (lookup key n.streams)) [
    | inl e ↦ rw (e, close_stream) refl
    | inr (p, e) ↦ elim (Option-cases (get_elem? n.objects p)) [
      | inl o ↦ rw (e, close_stream, o) (ground (arith, remove_entry-fields now c id counted))
      | inr (s, o) ↦
          rw (e, close_stream, o)
            (ground (
              arith,
              remove_entry-fields now c id counted,
              finish_stream-keeps c id p s (remove_entry now c id counted),
            ))
    ]
  ]

  -- The time of closing is noted, whether or not there was such a stream.
  pub close_stream-recent : lookup key (close_stream now c id reason n).0.recently_closed ≡ some now
  unfolding close_stream note_closed
  close_stream-recent = elim (Option-cases (lookup key n.streams)) [
    | inl e ↦ rw (e, close_stream) (lookup-insert_self key now n.recently_closed)
    | inr (p, e) ↦ elim (Option-cases (get_elem? n.objects p)) [
      | inl o ↦
          rw (e, close_stream, o)
            (ground (
              arith,
              remove_entry-fields now c id counted,
              lookup-insert_self key now n.recently_closed,
            ))
      | inr (s, o) ↦
          rw (e, close_stream, o)
            (ground (
              arith,
              remove_entry-fields now c id counted,
              finish_stream-keeps c id p s (remove_entry now c id counted),
              lookup-insert_self key now n.recently_closed,
            ))
    ]
  ]
