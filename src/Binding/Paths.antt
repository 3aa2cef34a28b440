-- ===== src/Binding/Paths.antt =====
-- What `RefFsBinding` uses of the file system at its path: an interface, whose laws are what the kernel
-- documents of open(2), flock(2), unlink(2) and bind(2), against a view of the two names. They are those of
-- a directory that lets the process remove its names: other failures of unlink(2), which the source
-- ignores, and of bind(2) and listen(2), which it returns, are left out. `bind` is bind(2) with the
-- listen(2) behind it; a listen that fails after its bind would leave the path behind.
use strong_ipc.Prelude.{ℕ, ◌+◌, ◌≡◌, refl, Bool, true, false, Option, none, some}
use strong_ipc.Prelude.Family.{put}

-- Lock files are numbered as they are created; a name is gone once it is removed, the file lives on
-- while it is open. `socket` is whose listener the path names.
pub record View : Type 0 where
  pub lock : Option ℕ
  pub socket : Option ℕ
  pub holder : ℕ → Option ℕ
  pub created : ℕ

abbrev pub view_fresh : View
view_fresh = record { lock = none; socket = none; holder = λ _. none; created = 0 }

abbrev pub open_at : Option ℕ → View → ℕ × View
open_at (some f) v = (f, v)
open_at none v = (v.created, record v { lock = some v.created; created = v.created + 1 })

abbrev pub view_open_lock : View → ℕ × View
view_open_lock v = open_at v.lock v

abbrev pub lock_held_by : Option ℕ → ℕ → ℕ → View → Bool × View
lock_held_by (some j) i f v = (false, v)
lock_held_by none i f v = (true, record v { holder = put v.holder f (some i) })

abbrev pub view_try_lock : ℕ → ℕ → View → Bool × View
view_try_lock i f v = lock_held_by (v.holder f) i f v

abbrev pub view_unlock : ℕ → View → View
view_unlock f v = record v { holder = put v.holder f none }

abbrev pub view_remove_lock : View → View
view_remove_lock v = record v { lock = none }

abbrev pub view_remove_socket : View → View
view_remove_socket v = record v { socket = none }

-- `bind` fails where the name exists.
abbrev pub bind_over : Option ℕ → ℕ → View → Bool × View
bind_over (some j) i v = (false, v)
bind_over none i v = (true, record v { socket = some i })

abbrev pub view_bind : ℕ → View → Bool × View
view_bind i v = bind_over v.socket i v

pub record Files : Type 1 where
  pub State : Type 0
  pub view : State → View
  pub fresh : State
  pub open_lock : State → ℕ × State
  pub try_lock : ℕ → ℕ → State → Bool × State
  pub unlock : ℕ → State → State
  pub remove_lock : State → State
  pub remove_socket : State → State
  pub bind : ℕ → State → Bool × State
  pub view-fresh : view fresh ≡ view_fresh
  pub open_lock_law :
      (s : State)
      → ((open_lock s).0 ≡ (view_open_lock (view s)).0)
        × (view (open_lock s).1 ≡ (view_open_lock (view s)).1)
  pub try_lock_law :
      (i f : ℕ) (s : State)
      → ((try_lock i f s).0 ≡ (view_try_lock i f (view s)).0)
        × (view (try_lock i f s).1 ≡ (view_try_lock i f (view s)).1)
  pub view-unlock : (f : ℕ) (s : State) → view (unlock f s) ≡ view_unlock f (view s)
  pub view-remove_lock : (s : State) → view (remove_lock s) ≡ view_remove_lock (view s)
  pub view-remove_socket : (s : State) → view (remove_socket s) ≡ view_remove_socket (view s)
  pub bind_law :
      (i : ℕ) (s : State)
      → ((bind i s).0 ≡ (view_bind i (view s)).0) × (view (bind i s).1 ≡ (view_bind i (view s)).1)

-- The laws can be met: a directory that is its own view.
abbrev pub views : Files
views = record {
  State = View;
  view = λ v. v;
  fresh = view_fresh;
  open_lock = view_open_lock;
  try_lock = view_try_lock;
  unlock = view_unlock;
  remove_lock = view_remove_lock;
  remove_socket = view_remove_socket;
  bind = view_bind;
  view-fresh = refl;
  open_lock_law = λ s. (refl, refl);
  try_lock_law = λ i f s. (refl, refl);
  view-unlock = λ f s. refl;
  view-remove_lock = λ s. refl;
  view-remove_socket = λ s. refl;
  bind_law = λ i s. (refl, refl);
}
