-- ===== src/Local.antt =====
-- src/local.rs: the handler behind a capability that leads back into this process. A handler's `Arc` is
-- an address, with a tag for its type; the map's values are `Weak`s, which are such addresses.
pub mod Laws
mod Tests
use strong_ipc.Prelude.{ℕ, ◌+◌, Option, none, some, ltb, ◌==◌, if◌then◌else◌}
use strong_ipc.Prelude.Family.{put}
use strong_ipc.Message.{SocketId, Ref}
use strong_ipc.Shards.{DashMap}

pub record Cell : Type 0 where
  pub tag : ℕ
  pub strong : ℕ

pub record LocalEntry : Type 0 where
  pub id : SocketId
  pub filed : ℕ

module _ (d : DashMap ℕ) where
  open d use {Map, get, insert, remove_if}

  pub record Locals : Type 0 where
    pub map : Map
    pub cell : ℕ → Cell

  -- `LocalEntry::file`
  unfoldable pub file : SocketId → ℕ → Locals → LocalEntry × Locals
  file id handler s =
      (record { id = id; filed = handler }, record s { map = insert id handler s.map })

  -- `LocalEntry::drop`
  unfoldable pub drop_entry : LocalEntry → Locals → Locals
  drop_entry e s = record s { map = remove_if e.id (λ w. w == e.filed) s.map }

  -- `Weak::upgrade`, then `downcast`: one more strong reference if both succeed. The `Arc` of a failed
  -- downcast is dropped again.
  abbrev pub upgrade_downcast : ℕ → Locals → ℕ → Option ℕ × Locals
  upgrade_downcast tag s w =
      if ltb 0 (s.cell w).strong
      then (if (s.cell w).tag == tag
          then (
            some w,
            record s { cell = put s.cell w (record (s.cell w) { strong = (s.cell w).strong + 1 }) },
          )
          else (none, s))
      else (none, s)

  abbrev pub reach_handler : ℕ → Locals → Option ℕ → Option ℕ × Locals
  reach_handler tag s none = (none, s)
  reach_handler tag s (some w) = upgrade_downcast tag s w

  -- `local_handler::<H>`, with `H`'s tag
  unfoldable pub local_handler : ℕ → SocketId → Locals → Option ℕ × Locals
  local_handler tag id s = reach_handler tag s (get s.map id)

  abbrev through : ℕ → Option SocketId → Locals → Option ℕ × Locals
  through tag none s = (none, s)
  through tag (some id) s = local_handler tag id s

  -- `Ref::local_handler` of src/capability.rs
  unfoldable pub ref_local_handler : ℕ → Ref → Locals → Option ℕ × Locals
  unfolding local_handler
  ref_local_handler tag r s = through tag r.id s
