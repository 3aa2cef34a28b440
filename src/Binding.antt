-- ===== src/Binding.antt =====
-- `RefFsBinding` of src/capability.rs: a `Ref` bound to a path, with the lock file beside it. Any number
-- of bindings to one path, in as many processes, interleaved at each call that touches the file system.
pub mod Paths
pub mod Invariant
pub mod Races
pub mod Accept
pub mod New
pub mod Recovery
mod Tests
use strong_ipc.Prelude.{ℕ, ◌≡◌, Bool, true, false, Option, none, some}
use strong_ipc.Prelude.Family.{put}
use strong_ipc.Binding.Paths.{Files}

-- Where a binding stands; the number is the lock file that it has open.
pub data Pc : Type 0 where
  idle : Pc
  opened : ℕ → Pc  -- in `acquire_lock`, before `try_lock`
  locked : ℕ → Pc  -- before `remove_file(path)`
  cleared : ℕ → Pc  -- before `wire::bind`
  bound : ℕ → Pc  -- before `Reactive::new`
  listening : ℕ → Pc  -- `new` has returned it
  unlocking : ℕ → Pc  -- in `drop`, the lock file removed
  unlinked : ℕ → Pc  -- in `drop`, both removed, before the fields drop
  ended : Pc  -- dropped, failed with an error, or killed

-- The lock file that a binding holds the lock of
abbrev pub held : Pc → Option ℕ
held idle = none
held (opened f) = none
held (locked f) = some f
held (cleared f) = some f
held (bound f) = some f
held (listening f) = some f
held (unlocking f) = some f
held (unlinked f) = some f
held ended = none

-- Between opening the lock file and trying its lock
abbrev pub is_opening : Pc → Bool
is_opening (opened f) = true
is_opening idle = false
is_opening (locked f) = false
is_opening (cleared f) = false
is_opening (bound f) = false
is_opening (listening f) = false
is_opening (unlocking f) = false
is_opening (unlinked f) = false
is_opening ended = false

module _ (k : Files) where
  pub record Dir : Type 0 where
    pub files : k.State
    pub pc : ℕ → Pc

  abbrev pub to : Dir → k.State → ℕ → Pc → Dir
  to s fs i p = record s { files = fs; pc = put s.pc i p }

  -- What binding `i` does in `new`, and how it may end without its `drop`.
  pub data Setup (s : Dir) : Dir → Type 0 where
    -- `File::create(&lock)`, which opens the file that is there
    opens :
        (i : ℕ)
        → s.pc i ≡ idle
        → Setup s (to s (k.open_lock s.files).1 i (opened (k.open_lock s.files).0))
    cannot_open : (i : ℕ) → s.pc i ≡ idle → Setup s (to s s.files i ended)
    -- `file.try_lock()`; a failure closes the file.
    locks :
        (i f : ℕ)
        → s.pc i ≡ opened f
        → (k.try_lock i f s.files).0 ≡ true
        → Setup s (to s (k.try_lock i f s.files).1 i (locked f))
    is_locked :
        (i f : ℕ)
        → s.pc i ≡ opened f
        → (k.try_lock i f s.files).0 ≡ false
        → Setup s (to s (k.try_lock i f s.files).1 i ended)
    -- `remove_file(path)`, its result ignored
    clears : (i f : ℕ) → s.pc i ≡ locked f → Setup s (to s (k.remove_socket s.files) i (cleared f))
    -- `wire::bind(path)`; a failure drops the lock file.
    binds :
        (i f : ℕ)
        → s.pc i ≡ cleared f
        → (k.bind i s.files).0 ≡ true
        → Setup s (to s (k.bind i s.files).1 i (bound f))
    cannot_bind :
        (i f : ℕ)
        → s.pc i ≡ cleared f
        → (k.bind i s.files).0 ≡ false
        → Setup s (to s (k.unlock f (k.bind i s.files).1) i ended)
    -- `Reactive::new`; a failure drops the socket and the lock file, and leaves the path behind.
    registers : (i f : ℕ) → s.pc i ≡ bound f → Setup s (to s s.files i (listening f))
    cannot_register : (i f : ℕ) → s.pc i ≡ bound f → Setup s (to s (k.unlock f s.files) i ended)
    -- The process is killed: the kernel closes its descriptors, and no `drop` runs.
    killed_idle : (i f : ℕ) → s.pc i ≡ opened f → Setup s (to s s.files i ended)
    killed : (i f : ℕ) → held (s.pc i) ≡ some f → Setup s (to s (k.unlock f s.files) i ended)

  -- Every interleaving, `drop` in its three accesses.
  pub data Step (s : Dir) : Dir → Type 0 where
    setup : {t : Dir} → Setup s t → Step s t
    removes_lock :
        (i f : ℕ) → s.pc i ≡ listening f → Step s (to s (k.remove_lock s.files) i (unlocking f))
    removes_socket :
        (i f : ℕ) → s.pc i ≡ unlocking f → Step s (to s (k.remove_socket s.files) i (unlinked f))
    closes : (i f : ℕ) → s.pc i ≡ unlinked f → Step s (to s (k.unlock f s.files) i ended)

  -- `drop` as a whole
  unfoldable pub drop_binding : ℕ → k.State → k.State
  drop_binding f fs = k.unlock f (k.remove_socket (k.remove_lock fs))

  -- The interleavings in which a `drop` runs through while nobody stands between opening the lock file
  -- and locking it.
  pub data Orderly (s : Dir) : Dir → Type 0 where
    setup : {t : Dir} → Setup s t → Orderly s t
    drops :
        (i f : ℕ)
        → s.pc i ≡ listening f
        → ((j : ℕ) → is_opening (s.pc j) ≡ false)
        → Orderly s (to s (drop_binding f s.files) i ended)

  abbrev pub init : Dir
  init = record { files = k.fresh; pc = λ _. idle }

  pub data Reach : Dir → Type 0 where
    start : Reach init
    later : {s t : Dir} → Reach s → Orderly s t → Reach t

  pub data Steps : Dir → Dir → Type 0 where
    here : {s : Dir} → Steps s s
    then : {s t u : Dir} → Step s t → Steps t u → Steps s u
