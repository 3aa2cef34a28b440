-- ===== src/Capability/Lazy.antt =====
-- `RefInner::outbox` and `RefInner::death_watch` of src/capability.rs: what is built on first use in a
-- `OnceLock`, by any number of threads, interleaved at each access to the lock. Built values are
-- numbered in the order in which they are built.
pub mod Laws
mod Tests
use strong_ipc.Prelude.{ℕ, ◌+◌, ◌≡◌, Bool, true, false, Option, none, some}
use strong_ipc.Prelude.Family.{put}

-- Where a call stands.
pub data Pc : Type 0 where
  entering : Pc  -- before the first `get`
  missed : Pc  -- it gave nothing: before the build
  holding : ℕ → Pc  -- built, before `set`
  set_tried : Pc  -- before the second `get`
  got : ℕ → Pc
  failed : Pc  -- the build failed, and `?` returned its error

pub record Lazy : Type 0 where
  pub cell : Option ℕ
  pub built : ℕ
  pub dropped : ℕ → Bool
  pub pc : ℕ → Pc

abbrev pub init : Lazy
init = record { cell = none; built = 0; dropped = λ _. false; pc = λ _. entering }

abbrev pub move : Lazy → ℕ → Pc → Lazy
move s i p = record s { pc = put s.pc i p }

-- One access of caller `i`. The `expect` of the source is the case of `set_tried` with an empty cell,
-- which has no step.
pub data Step (s : Lazy) : Lazy → Type 0 where
  hits : (i b : ℕ) → s.pc i ≡ entering → s.cell ≡ some b → Step s (move s i (got b))
  misses : (i : ℕ) → s.pc i ≡ entering → s.cell ≡ none → Step s (move s i missed)
  builds :
      (i : ℕ)
      → s.pc i ≡ missed
      → Step s (record s { built = s.built + 1; pc = put s.pc i (holding s.built) })
  cannot_build : (i : ℕ) → s.pc i ≡ missed → Step s (move s i failed)
  sets :
      (i b : ℕ)
      → s.pc i ≡ holding b
      → s.cell ≡ none
      → Step s (record s { cell = some b; pc = put s.pc i set_tried })
  loses :
      (i b c : ℕ)
      → s.pc i ≡ holding b
      → s.cell ≡ some c
      → Step s (record s { dropped = put s.dropped b true; pc = put s.pc i set_tried })
  reads : (i b : ℕ) → s.pc i ≡ set_tried → s.cell ≡ some b → Step s (move s i (got b))

pub data Reach : Lazy → Type 0 where
  start : Reach init
  later : {s t : Lazy} → Reach s → Step s t → Reach t
