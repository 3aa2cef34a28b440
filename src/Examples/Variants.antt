-- ===== src/Examples/Variants.antt =====
-- The echo servers of examples/timeline.rs, which stamps what it echoes, and of examples/fdcost.rs, whose
-- first byte says what becomes of the descriptor.
pub mod Laws
use strong_ipc.Prelude.{
  ℕ, ◌+◌, ◌%◌, ◌^◌, Bool, true, false, ◌&&◌, ◌||◌, Option, none, some, List, [], ◌∷◌, length, ltb,
  ◌==◌, if◌then◌else◌,
}
use strong_ipc.Message.{SocketId, from_data}
use strong_ipc.Shards.{DashMap}
use strong_ipc.Capability.Registry.{Reg, from_fd, clone_ref}
use strong_ipc.Binding.Accept.{close_all}
use strong_ipc.Examples.Slots.{header_len, stamp}
use strong_ipc.Examples.Echo.{
  Echo, Action, exits, silent, quit, let_go, keep, on_cached, reply_ref, answer,
}

-- `data.starts_with(prefix)`
abbrev pub starts_with : List ℕ → List ℕ → Bool
starts_with [] data_bytes = true
starts_with (p ∷ prefix) [] = false
starts_with (p ∷ prefix) (b ∷ data_bytes) = p == b && starts_with prefix data_bytes

-- The opcodes of fdcost.rs
abbrev pub op_establish : ℕ
op_establish = 0

abbrev pub op_drop_fd : ℕ
op_drop_fd = 1

abbrev pub op_make_ref : ℕ
op_make_ref = 2

-- `data.first().copied().unwrap_or(OP_DROP_FD)`
abbrev pub op_of : List ℕ → ℕ
op_of [] = op_drop_fd
op_of (b ∷ rest) = b

module _ (d : DashMap ℕ) where
  abbrev pub closing : List ℕ → Echo d → Echo d
  closing fds s = record s { reg = close_all d fds s.reg }

  -- The stamped copy is sent; `none` is a panic in `put`.
  abbrev pub answer_stamped : Option (List ℕ) → Option ℕ × Echo d → Option (Action × Echo d)
  answer_stamped none r = none
  answer_stamped (some out) r = some (answer d (from_data out) r)

  abbrev pub stamp_and_answer : ℕ → ℕ → List ℕ → Option ℕ × Echo d → Option (Action × Echo d)
  stamp_and_answer t1 t2 bytes (none, s) = some (silent, s)
  stamp_and_answer t1 t2 bytes (some a, s) = answer_stamped (stamp t1 t2 bytes) (some a, s)

  -- `EchoHandler::handle` of timeline.rs, entered at `t1` and about to send at `t2`
  unfoldable pub handle_stamped :
      (ℕ → Option SocketId) → ℕ → ℕ → List ℕ → List ℕ → Echo d → Option (Action × Echo d)
  unfolding reply_ref stamp from_data
  handle_stamped stat t1 t2 bytes fds s =
      if starts_with quit bytes
      then some (exits, s)
      else if ltb (length bytes) header_len
      then some (silent, closing fds s)
      else stamp_and_answer t1 t2 bytes (reply_ref d stat fds s)

  -- `EchoHandler` of fdcost.rs
  pub record Counting : Type 0 where
    pub echo : Echo d
    pub fds_seen : ℕ
    pub refs_built : ℕ

  abbrev pub u64 : ℕ → ℕ
  u64 n = n % 2 ^ 64

  abbrev pub promotes : ℕ → Bool
  promotes op = op == op_establish || op == op_make_ref

  -- `OP_ESTABLISH | OP_MAKE_REF`: the first descriptor becomes a `Ref`, which `OP_ESTABLISH` keeps; the
  -- others are dropped when the handler returns.
  abbrev pub kept_if : Bool → ℕ × Reg d → Echo d → Option ℕ × Echo d
  kept_if true (a, r) s = (some a, keep d a r s.cached)
  kept_if false (a, r) s = (some a, record s { reg = r })

  abbrev pub then_close : List ℕ → Action × Echo d → Action × Echo d
  then_close fds (act, s) = (act, closing fds s)

  abbrev pub promote : (ℕ → Option SocketId) → ℕ → List ℕ → List ℕ → Counting → Action × Counting
  promote stat op bytes [] s = (silent, s)
  promote stat op bytes (fd ∷ rest) s =
      let (act, e) = then_close rest (
        answer d (from_data bytes)
          (kept_if (op == op_establish) (from_fd d (stat fd) fd s.echo.reg) s.echo)) in
      (act, record s { echo = e; refs_built = u64 (s.refs_built + 1) })

  abbrev pub drop_all : List ℕ → List ℕ → Counting → Action × Counting
  drop_all bytes fds s =
      let t = closing fds s.echo in
      let (act, e) = answer d (from_data bytes) (on_cached d t.cached t) in
      (act, record s { echo = e })

  abbrev pub seen : List ℕ → Counting → Counting
  seen fds s = record s { fds_seen = u64 (s.fds_seen + length fds) }

  -- `EchoHandler::handle` of fdcost.rs
  unfoldable pub handle_op : (ℕ → Option SocketId) → List ℕ → List ℕ → Counting → Action × Counting
  unfolding from_fd from_data let_go clone_ref
  handle_op stat bytes fds s =
      if starts_with quit bytes
      then (exits, s)
      else if promotes (op_of bytes)
      then promote stat (op_of bytes) bytes fds (seen fds s)
      else drop_all bytes fds (seen fds s)
