-- ===== src/Examples/Variants/Laws.antt =====
-- What the two variants add to the echo.
use strong_ipc.Prelude.{
  ℕ, ◌+◌, ◌≤◌, ◌<◌, ◌^◌, ◌≡◌, refl, ap, false, Option, none, some, List, [], ◌∷◌, length, arith,
  ltb, Bool-cases, inl, inr,
}
use strong_ipc.Message.{SocketId, from_data}
use strong_ipc.Shards.{DashMap}
use strong_ipc.Examples.Slots.{header_len, stamp, get}
use strong_ipc.Examples.Slots.Laws.{stamp_lem}
use strong_ipc.Examples.Echo.{Echo, quit, answer, reply_ref}
use strong_ipc.Examples.Variants.{
  starts_with, op_of, Counting, promotes, promote, seen, answer_stamped, stamp_and_answer,
  handle_stamped, handle_op,
}

module _ (d : DashMap ℕ) where
  -- The count of promoted descriptors never exceeds the count of those seen, short of 2 ^ 64 of them.
  pub handle_op-counts :
      (stat : ℕ → Option SocketId) (bytes fds : List ℕ) (s : Counting d)
      → s.refs_built ≤ s.fds_seen
      → s.fds_seen + length fds < 2 ^ 64
      → let t = (handle_op d stat bytes fds s).1 in
        (t.refs_built ≤ t.fds_seen) × (s.refs_built ≤ t.refs_built)
  unfolding handle_op
  handle_op-counts stat bytes fds s h lt = elim (Bool-cases (starts_with quit bytes)) [
    | inl stops ↦ rw stops (h, omega arith)
    | inr goes ↦ rw goes (elim (Bool-cases (promotes d (op_of bytes))) [
      | inl yes_ ↦ rw yes_ (built fds lt)
      | inr no_ ↦ rw no_ (omega arith, omega arith)
    ])
  ]
    where
      built :
          (l : List ℕ)
          → s.fds_seen + length l < 2 ^ 64
          → let t = (promote d stat (op_of bytes) bytes l (seen d l s)).1 in
            (t.refs_built ≤ t.fds_seen) × (s.refs_built ≤ t.refs_built)
      built [] lt = (omega arith, omega arith)
      built (fd ∷ rest) lt = (omega arith, omega arith)

  -- Stamping does not panic: a message that is long enough is answered, where there is a capability to
  -- answer on, with a message of its own length and sequence number that has both stamps.
  pub handle_stamped_lem :
      (stat : ℕ → Option SocketId) (t1 t2 : ℕ) (bytes fds : List ℕ) (s : Echo d)
      → starts_with quit bytes ≡ false
      → header_len ≤ length bytes
      → t1 < 2 ^ 64
      → t2 < 2 ^ 64
      → (out : List ℕ) × (handle_stamped d stat t1 t2 bytes fds s
          ≡ some (answer d (from_data out) (reply_ref d stat fds s)))
        × (length out ≡ length bytes)
        × (get out 0 ≡ get bytes 0)
        × (get out 1 ≡ some t1)
        × (get out 2 ≡ some t2)
  unfolding handle_stamped
  handle_stamped_lem stat t1 t2 bytes fds s going long a b =
      let (out, p, l, z, o, t) = stamp_lem bytes t1 t2 long a b in
      (out, rw going (rw (enough long) (answers out p (reply_ref d stat fds s))), l, z, o, t)
    where
      enough : header_len ≤ length bytes → ltb (length bytes) header_len ≡ false
      enough h = ground arith

      answers :
          (out : List ℕ)
          → stamp t1 t2 bytes ≡ some out
          → (r : Option ℕ × Echo d)
          → stamp_and_answer d t1 t2 bytes r ≡ some (answer d (from_data out) r)
      answers out p (none, t) = refl
      answers out p (some c, t) = ap (λ o. answer_stamped d o (some c, t)) p
