-- ===== src/Binding/Invariant.antt =====
-- While no `drop` runs beside an opening, one binding at a time has the path.
use strong_ipc.Prelude.{ℕ, ◌<◌, ◌≤◌, ◌≡◌, none, some, arith}
use strong_ipc.Binding.Paths.{Files, View, view_unlock, view_remove_socket, view_remove_lock}
use strong_ipc.Binding.{
  Pc, idle, opened, locked, cleared, bound, listening, unlocking, unlinked, ended, Dir, Setup,
  opens, cannot_open, locks, is_locked, clears, binds, cannot_bind, registers, cannot_register,
  killed_idle, killed, drop_binding, Orderly, setup, drops, Reach, start, later,
}

-- What binding `i` at `p` finds at the path.
abbrev pub Has : View → ℕ → Pc → Type 0
Has v i idle = Unit {0}
Has v i ended = Unit {0}
Has v i (opened f) = v.lock ≡ some f
Has v i (locked f) = (v.lock ≡ some f) × (v.holder f ≡ some i)
Has v i (cleared f) = (v.lock ≡ some f) × (v.holder f ≡ some i) × (v.socket ≡ none)
Has v i (bound f) = (v.lock ≡ some f) × (v.holder f ≡ some i) × (v.socket ≡ some i)
Has v i (listening f) = (v.lock ≡ some f) × (v.holder f ≡ some i) × (v.socket ≡ some i)
Has v i (unlocking f) = ⊥
Has v i (unlinked f) = ⊥

module _ (k : Files) where
  pub record Inv (s : Dir k) : Type 0 where
    pub has : (i : ℕ) → Has (k.view s.files) i (s.pc i)
    pub named : (f : ℕ) → (k.view s.files).lock ≡ some f → f < (k.view s.files).created
    pub fresh : (f : ℕ) → (k.view s.files).created ≤ f → (k.view s.files).holder f ≡ none

  Setup-Inv : {s t : Dir k} → Setup k s t → Inv s → Inv t
  Setup-Inv {s} (opens i e) v = record {
    has = λ j. ground (arith, k.open_lock_law s.files, v.has j);
    named = λ f q. ground (arith, k.open_lock_law s.files, v.named f);
    fresh = λ f lt. ground (arith, k.open_lock_law s.files, v.fresh f);
  }
  Setup-Inv {s} (cannot_open i e) v = record {
    has = λ j. ground (arith, v.has j);
    named = v.named;
    fresh = v.fresh;
  }
  Setup-Inv {s} (locks i f e q) v = record {
    has = λ j. ground (arith, k.try_lock_law i f s.files, v.has j, v.has i);
    named = λ g h. ground (arith, k.try_lock_law i f s.files, v.named g);
    fresh = λ g lt. ground (arith, k.try_lock_law i f s.files, v.fresh g, v.named f, v.has i);
  }
  Setup-Inv {s} (is_locked i f e q) v = record {
    has = λ j. ground (arith, k.try_lock_law i f s.files, v.has j, v.has i);
    named = λ g h. ground (arith, k.try_lock_law i f s.files, v.named g);
    fresh = λ g lt. ground (arith, k.try_lock_law i f s.files, v.fresh g);
  }
  Setup-Inv {s} (clears i f e) v = record {
    has = λ j. ground (arith, k.view-remove_socket s.files, v.has j, v.has i);
    named = λ g h. ground (arith, k.view-remove_socket s.files, v.named g);
    fresh = λ g lt. ground (arith, k.view-remove_socket s.files, v.fresh g);
  }
  Setup-Inv {s} (binds i f e q) v = record {
    has = λ j. ground (arith, k.bind_law i s.files, v.has j, v.has i);
    named = λ g h. ground (arith, k.bind_law i s.files, v.named g);
    fresh = λ g lt. ground (arith, k.bind_law i s.files, v.fresh g);
  }
  Setup-Inv {s} (cannot_bind i f e q) v = record {
    has = λ j.
        ground
          (arith, k.bind_law i s.files, k.view-unlock f (k.bind i s.files).1, v.has j, v.has i);
    named = λ g h.
        ground (arith, k.bind_law i s.files, k.view-unlock f (k.bind i s.files).1, v.named g);
    fresh = λ g lt.
        ground (arith, k.bind_law i s.files, k.view-unlock f (k.bind i s.files).1, v.fresh g);
  }
  Setup-Inv {s} (registers i f e) v = record {
    has = λ j. ground (arith, v.has j, v.has i);
    named = v.named;
    fresh = v.fresh;
  }
  Setup-Inv {s} (cannot_register i f e) v = record {
    has = λ j. ground (arith, k.view-unlock f s.files, v.has j, v.has i);
    named = λ g h. ground (arith, k.view-unlock f s.files, v.named g);
    fresh = λ g lt. ground (arith, k.view-unlock f s.files, v.fresh g);
  }
  Setup-Inv {s} (killed_idle i f e) v = record {
    has = λ j. ground (arith, v.has j, v.has i);
    named = v.named;
    fresh = v.fresh;
  }
  Setup-Inv {s} (killed i f e) v = record {
    has = λ j. ground (arith, k.view-unlock f s.files, v.has j, v.has i);
    named = λ g h. ground (arith, k.view-unlock f s.files, v.named g);
    fresh = λ g lt. ground (arith, k.view-unlock f s.files, v.fresh g);
  }

  Orderly-Inv : {s t : Dir k} → Orderly k s t → Inv s → Inv t
  unfolding drop_binding
  Orderly-Inv (setup a) v = Setup-Inv a v
  Orderly-Inv {s} (drops i f e none_opened) v = record {
    has = λ j. ground (arith, dropped, v.has j, v.has i, none_opened j);
    named = λ g h. ground (arith, dropped);
    fresh = λ g lt. ground (arith, dropped, v.fresh g);
  }
    where
      dropped :
          k.view (drop_binding k f s.files)
          ≡ view_unlock f (view_remove_socket (view_remove_lock (k.view s.files)))
      dropped = simp (k.view-unlock, k.view-remove_socket, k.view-remove_lock)

  pub Reach-Inv : {s : Dir k} → Reach k s → Inv s
  Reach-Inv start = record {
    has = λ j. tt;
    named = λ f e. absurd (ground (arith, k.view-fresh));
    fresh = λ f lt. ground (arith, k.view-fresh);
  }
  Reach-Inv (later r st) = Orderly-Inv st (Reach-Inv r)

  -- Bindings that end by `drop` or by being killed, in any order, each opening of the lock file clear of
  -- every `drop`: in every reachable state at most one binding is up, and the path names its socket.
  pub one_binding :
      {s : Dir k} (i j f g : ℕ)
      → Reach k s
      → s.pc i ≡ listening f
      → s.pc j ≡ listening g
      → (i ≡ j) × ((k.view s.files).socket ≡ some i) × ((k.view s.files).lock ≡ some f)
  one_binding {s} i j f g r p q = ground (arith, (Reach-Inv r).has i, (Reach-Inv r).has j)
