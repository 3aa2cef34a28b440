-- ===== src/Binding/New.antt =====
-- `RefFsBinding::new` of src/capability.rs as one process runs it with nobody in between: its lock, its
-- path, its listening socket, and what it leaves behind where one of them fails. Binding.antt has the
-- interleavings.
pub mod Laws
mod Tests
use strong_ipc.Prelude.{
  ℕ, Bool, true, false, if◌then◌else◌, Option, none, some, List, [], ◌∷◌, ◌++◌,
}
use strong_ipc.Io.{IoError, IoResult, ok, err, addr_in_use, text}
use strong_ipc.Binding.{Pc, listening, ended}
use strong_ipc.Binding.Paths.{Files}

-- ".lock"
abbrev pub lock_suffix : List ℕ
lock_suffix = 46 ∷ 108 ∷ 111 ∷ 99 ∷ 107 ∷ []

-- `RefFsBinding::lock_path`, on the bytes of the path
unfoldable pub lock_path : List ℕ → List ℕ
lock_path dir = dir ++ lock_suffix

abbrev pub lock_error : IoError
lock_error = record { kind = addr_in_use; shown = text "unable to acquire lock file" ∷ [] }

module _ (k : Files) where
  -- `RefFsBinding::acquire_lock`: whether the lock file can be opened is the file system's to say; a file
  -- whose lock is not to be had is closed again.
  unfoldable pub acquire_lock : ℕ → Bool → k.State → Option ℕ × k.State
  acquire_lock i false fs = (none, fs)
  acquire_lock i true fs =
      let (f, u) = k.open_lock fs in
      let (b, v) = k.try_lock i f u in (if b then some f else none, v)

  -- `Reactive::new(wire::bind(path)?)?`, with the lock file `f` in hand, which an error drops; the error
  -- of a refused `bind` is `e`.
  abbrev pub after_bind : ℕ → IoError → IoResult Unit → Bool × k.State → IoResult ℕ × k.State
  after_bind f e registered (false, fs) = (err e, k.unlock f fs)
  after_bind f e (err r) (true, fs) = (err r, k.unlock f fs)
  after_bind f e (ok _) (true, fs) = (ok f, fs)

  abbrev pub after_lock : ℕ → IoError → IoResult Unit → Option ℕ × k.State → IoResult ℕ × k.State
  after_lock i e registered (none, fs) = (err lock_error, fs)
  after_lock i e registered (some f, fs) = after_bind f e registered (k.bind i (k.remove_socket fs))

  -- `RefFsBinding::new`, up to its accept loop: the lock file that the binding holds
  unfoldable pub new_binding : ℕ → Bool → IoError → IoResult Unit → k.State → IoResult ℕ × k.State
  unfolding acquire_lock
  new_binding i can_open e registered fs = after_lock i e registered (acquire_lock i can_open fs)

-- Where a binding stands when its `new` has returned
abbrev pub stands : IoResult ℕ → Pc
stands (ok f) = listening f
stands (err e) = ended
