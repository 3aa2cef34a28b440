-- ===== src/Binding/Recovery.antt =====
-- What `RefFsBinding::new` comes to at a path that others have bound before: by a binding that is up, or
-- by one that was dropped or whose process was killed.
use strong_ipc.Prelude.{ℕ, ◌≡◌, ◌⊎◌, inl, inr, refl, Bool, true, false, Option, none, some, arith}
use strong_ipc.Io.{IoError, IoResult, ok, err}
use strong_ipc.Binding.Paths.{Files, view_unlock, view_remove_socket, view_remove_lock}
use strong_ipc.Binding.{
  held, listening, Dir, Setup, opens, cannot_open, locks, is_locked, clears, binds, cannot_bind,
  registers, cannot_register, killed_idle, killed, drop_binding, Orderly, setup, drops, Reach,
  start, later,
}
use strong_ipc.Binding.Invariant.{Reach-Inv}
use strong_ipc.Binding.New.{lock_error, acquire_lock, after_bind, new_binding}

module _ (k : Files) where
  -- Whoever the kernel has for the holder of a lock stands where the binding holds it.
  abbrev Honest : Dir k → Type 0
  Honest s = (f i : ℕ) → (k.view s.files).holder f ≡ some i → held (s.pc i) ≡ some f

  Setup-Honest : {s t : Dir k} → Setup k s t → Honest s → Honest t
  Setup-Honest {s} (opens i e) v g j h = ground (arith, k.open_lock_law s.files, v g j)
  Setup-Honest {s} (cannot_open i e) v g j h = ground (arith, v g j)
  Setup-Honest {s} (locks i f e q) v g j h = ground (arith, k.try_lock_law i f s.files, v g j)
  Setup-Honest {s} (is_locked i f e q) v g j h = ground (arith, k.try_lock_law i f s.files, v g j)
  Setup-Honest {s} (clears i f e) v g j h = ground (arith, k.view-remove_socket s.files, v g j)
  Setup-Honest {s} (binds i f e q) v g j h = ground (arith, k.bind_law i s.files, v g j)
  Setup-Honest {s} (cannot_bind i f e q) v g j h =
      ground (arith, k.bind_law i s.files, k.view-unlock f (k.bind i s.files).1, v g j)
  Setup-Honest {s} (registers i f e) v g j h = ground (arith, v g j)
  Setup-Honest {s} (cannot_register i f e) v g j h = ground (arith, k.view-unlock f s.files, v g j)
  Setup-Honest {s} (killed_idle i f e) v g j h = ground (arith, v g j)
  Setup-Honest {s} (killed i f e) v g j h = ground (arith, k.view-unlock f s.files, v g j)

  Orderly-Honest : {s t : Dir k} → Orderly k s t → Honest s → Honest t
  unfolding drop_binding
  Orderly-Honest (setup a) v g j h = Setup-Honest a v g j h
  Orderly-Honest {s} (drops i f e clear) v g j h = ground (arith, dropped, v g j)
    where
      dropped :
          k.view (drop_binding k f s.files)
          ≡ view_unlock f (view_remove_socket (view_remove_lock (k.view s.files)))
      dropped = simp (k.view-unlock, k.view-remove_socket, k.view-remove_lock)

  Reach-Honest : {s : Dir k} → Reach k s → Honest s
  Reach-Honest start f i h = ground (arith, k.view-fresh)
  Reach-Honest (later r st) f i h = Orderly-Honest st (Reach-Honest r) f i h

  -- The lock file that `new` opens is locked by nobody if no binding holds a lock.
  opened-free :
      {s : Dir k}
      → Reach k s
      → ((j : ℕ) → held (s.pc j) ≡ none)
      → (k.view (k.open_lock s.files).1).holder (k.open_lock s.files).0 ≡ none
  opened-free {s} r free = go ((k.view s.files).holder (k.open_lock s.files).0) refl
    where
      go :
          (o : Option ℕ)
          → (k.view s.files).holder (k.open_lock s.files).0 ≡ o
          → (k.view (k.open_lock s.files).1).holder (k.open_lock s.files).0 ≡ none
      go none q = ground (arith, k.open_lock_law s.files)
      go (some j) q = absurd (ground (arith, free j, Reach-Honest r (k.open_lock s.files).0 j))

  -- What a `new` comes to that has got the lock `f`: it is up and holds the lock, and the path names its
  -- socket; or its `bind` or its registration failed, with whose error it ends, the lock given back.
  abbrev pub Fate : ℕ → ℕ → IoError → IoResult Unit → Bool × k.State → IoResult ℕ × k.State → Type 0
  Fate i f e registered bound (ended_as, fs) =
      ((bound.0 ≡ true)
        × (registered ≡ ok tt)
        × (ended_as ≡ ok f)
        × ((k.view fs).holder f ≡ some i)
        × ((k.view fs).socket ≡ some i))
      ⊎ ((bound.0 ≡ false) × (ended_as ≡ err e) × ((k.view fs).holder f ≡ none))
      ⊎ ((r : IoError) × (bound.0 ≡ true)
          × (registered ≡ err r)
          × (ended_as ≡ err r)
          × ((k.view fs).holder f ≡ none))

  after_bind-Fate :
      (i f : ℕ) (e : IoError) (registered : IoResult Unit) (b : Bool) (fs : k.State)
      → (b ≡ true → (k.view fs).holder f ≡ some i)
      → (b ≡ true → (k.view fs).socket ≡ some i)
      → Fate i f e registered (b, fs) (after_bind k f e registered (b, fs))
  after_bind-Fate i f e registered false fs h q =
      inr (inl (refl, refl, ground (arith, k.view-unlock f fs)))
  after_bind-Fate i f e (err r) true fs h q =
      inr (inr (r, refl, refl, refl, ground (arith, k.view-unlock f fs)))
  after_bind-Fate i f e (ok _) true fs h q = inl (refl, refl, refl, h refl, q refl)

  -- In every state that bindings reach each of whose openings of the lock file is clear of every
  -- `drop`: while no binding holds the lock, whatever a dropped or a killed one has left behind, a `new`
  -- whose lock file opens is not refused for want of the lock. It gets the lock, and it fails only if its
  -- own `bind` fails, made after the stale path is removed, or its registration, with that error and the
  -- lock given back; if neither fails, it is up, and the path names its socket.
  pub new_binding-Recovers :
      {s : Dir k} (i : ℕ) (e : IoError) (registered : IoResult Unit)
      → Reach k s
      → ((j : ℕ) → held (s.pc j) ≡ none)
      → let f = (k.open_lock s.files).0 in
        let locked = acquire_lock k i true s.files in
        (locked.0 ≡ some f)
        × Fate i f e registered
            (k.bind i (k.remove_socket locked.1))
            (new_binding k i true e registered s.files)
  unfolding new_binding acquire_lock
  new_binding-Recovers {s} i e registered r free =
      let got : (k.try_lock i f u).0 ≡ true =
        ground (arith, opened-free r free, k.try_lock_law i f u) in
      rw got (
        refl,
        after_bind-Fate i f e registered bound.0 bound.1 (λ _. held_by got)
            (λ h. ground (arith, h, k.bind_law i (k.remove_socket (k.try_lock i f u).1))),
      )
    where
      f : ℕ
      f = (k.open_lock s.files).0

      u : k.State
      u = (k.open_lock s.files).1

      bound : Bool × k.State
      bound = k.bind i (k.remove_socket (k.try_lock i f u).1)

      held_by : (k.try_lock i f u).0 ≡ true → (k.view bound.1).holder f ≡ some i
      held_by got = ground (
        arith,
        got,
        k.try_lock_law i f u,
        k.view-remove_socket (k.try_lock i f u).1,
        k.bind_law i (k.remove_socket (k.try_lock i f u).1),
      )

  -- In the same states, while a binding is up, a `new` fails for want of the lock, and the path goes on
  -- naming that binding's socket.
  pub new_binding-refused :
      {s : Dir k} (i j f : ℕ) (e : IoError) (registered : IoResult Unit)
      → Reach k s
      → s.pc j ≡ listening f
      → ((new_binding k i true e registered s.files).0 ≡ err lock_error)
        × ((k.view (new_binding k i true e registered s.files).1).socket ≡ some j)
  unfolding new_binding acquire_lock
  new_binding-refused {s} i j f e registered r up =
      let (g, u) = k.open_lock s.files in
      ground (arith, k.open_lock_law s.files, k.try_lock_law i g u, (Reach-Inv k r).has j)
