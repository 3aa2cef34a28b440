-- ===== src/Binding/Races.antt =====
-- What goes wrong where a `drop` runs beside an opening: the lock file is unlinked while another binding
-- has it open.
use strong_ipc.Prelude.{ℕ, ◌≡◌, ◌≢◌, ap, ◌∙◌, true, none, some, arith}
use strong_ipc.Binding.Paths.{
  Files, lock_held_by, view_bind, view_remove_socket, view_remove_lock, view_unlock,
}
use strong_ipc.Prelude.Family.{put}
use strong_ipc.Binding.{
  idle, opened, locked, cleared, bound, listening, unlocking, unlinked, ended, Dir, drop_binding,
  to, opens, locks, clears, binds, registers, setup, removes_lock, removes_socket, closes, Reach,
  Steps, here, then,
}
use strong_ipc.Binding.Invariant.{Reach-Inv}

module _ (k : Files) where
  Steps-append : {s t u : Dir k} → Steps k s t → Steps k t u → Steps k s u
  Steps-append here r = r
  Steps-append (then a q) r = then a (Steps-append q r)

  -- From `s` to `t`, binding `q` has locked file `f`, cleared the path and bound it.
  pub record TakesOver (q f : ℕ) (s t : Dir k) : Type 0 where
    pub steps : Steps k s t
    pub up : t.pc q ≡ listening f
    pub socket : (k.view t.files).socket ≡ some q
    pub lock : (k.view t.files).lock ≡ (k.view s.files).lock
    pub created : (k.view t.files).created ≡ (k.view s.files).created
    pub others : (j : ℕ) → q ≢ j → t.pc j ≡ s.pc j
    pub locks_kept : (g : ℕ) → f ≢ g → (k.view t.files).holder g ≡ (k.view s.files).holder g

  -- An opened file that nobody has locked is enough for that, whatever the path names.
  take_over :
      (q f : ℕ) (s : Dir k)
      → s.pc q ≡ opened f
      → (k.view s.files).holder f ≡ none
      → (t : Dir k) × TakesOver q f s t
  take_over q f s e h = (
    to k s₃ s₃.files q (listening f),
    record {
      steps = then (setup (locks q f e (ground (arith, k.try_lock_law q f s.files)))) (
          then (setup (clears q f at₁))
            (then (setup (binds q f at₂ free)) (then (setup (registers q f at₃)) here)));
      up = ground arith;
      socket = ground (arith, named);
      lock = ground (arith, named);
      created = ground (arith, named);
      others = λ j ne. ground (arith, ne);
      locks_kept = λ g ne. ground (arith, named, ne);
    },
  )
    where
      s₁ : Dir k
      s₁ = to k s (k.try_lock q f s.files).1 q (locked f)

      s₂ : Dir k
      s₂ = to k s₁ (k.remove_socket s₁.files) q (cleared f)

      s₃ : Dir k
      s₃ = to k s₂ (k.bind q s₂.files).1 q (bound f)

      at₁ : s₁.pc q ≡ locked f
      at₁ = ground arith

      at₂ : s₂.pc q ≡ cleared f
      at₂ = ground arith

      at₃ : s₃.pc q ≡ bound f
      at₃ = ground arith

      free : (k.bind q s₂.files).0 ≡ true
      free = ground (arith, k.bind_law q s₂.files, k.view-remove_socket s₁.files)

      named : k.view s₃.files ≡ record (k.view s.files) {
        socket = some q;
        holder = put (k.view s.files).holder f (some q);
      }
      named =
          (k.bind_law q s₂.files).1
          ∙ ap (λ v. (view_bind q v).1)
              (k.view-remove_socket s₁.files
                ∙ ap view_remove_socket (
                    (k.try_lock_law q f s.files).1
                    ∙ ap (λ o. (lock_held_by o q f (k.view s.files)).1) h))

  -- A `drop` of binding `p` that has run through
  dropped : (p f : ℕ) (s : Dir k) → Dir k
  dropped p f s =
      to k
        (to k (to k s (k.remove_lock s.files) p (unlocking f))
          (k.remove_socket (k.remove_lock s.files)) p (unlinked f))
        (drop_binding k f s.files) p ended

  drop_steps : (p f : ℕ) (s : Dir k) → s.pc p ≡ listening f → Steps k s (dropped p f s)
  unfolding dropped drop_binding
  drop_steps p f s e =
      then (removes_lock p f e)
        (then (removes_socket p f (ground arith)) (then (closes p f (ground arith)) here))

  view-dropped :
      (p f : ℕ) (s : Dir k)
      → k.view (dropped p f s).files
        ≡ view_unlock f (view_remove_socket (view_remove_lock (k.view s.files)))
  unfolding dropped drop_binding
  view-dropped p f s = simp (k.view-unlock, k.view-remove_socket, k.view-remove_lock)

  -- What a newcomer comes to where the lock file has been removed
  pub record Joins (r c : ℕ) (s t : Dir k) : Type 0 where
    pub steps : Steps k s t
    pub up : t.pc r ≡ listening c
    pub socket : (k.view t.files).socket ≡ some r
    pub others : (j : ℕ) → r ≢ j → t.pc j ≡ s.pc j

  join :
      (r c : ℕ) (s : Dir k)
      → s.pc r ≡ idle
      → (k.view s.files).lock ≡ none
      → (k.view s.files).created ≡ c
      → (k.view s.files).holder c ≡ none
      → (t : Dir k) × Joins r c s t
  join r c s e h same free =
      let s₁ = to k s (k.open_lock s.files).1 r (opened (k.open_lock s.files).0) in
      let fresh : (k.open_lock s.files).0 ≡ c = ground (arith, k.open_lock_law s.files) in
      let (t, a) =
        take_over r c s₁ (ground (arith, fresh)) (ground (arith, k.open_lock_law s.files)) in
      (
        t,
        record {
          steps = then (setup (opens r e)) a.steps;
          up = a.up;
          socket = a.socket;
          others = λ j ne. ground (arith, a.others j, ne);
        },
      )

  -- Where `q` has opened the lock file of binding `p`, which is up, and `r` has not begun: from every
  -- orderly reachable state, a `drop` of `p` that `q` and then `r` follow leaves both up at once, each
  -- with a lock, on different files, and the path names `r`'s socket only.
  pub two_bindings :
      {s : Dir k} (p q r f : ℕ)
      → Reach k s
      → s.pc p ≡ listening f
      → s.pc q ≡ opened f
      → s.pc r ≡ idle
      → (t : Dir k) × Steps k s t
        × (t.pc q ≡ listening f)
        × (t.pc r ≡ listening (k.view s.files).created)
        × (f ≢ (k.view s.files).created)
        × ((k.view t.files).socket ≡ some r)
  unfolding dropped
  two_bindings {s} p q r f reach ep eq er =
      let v = Reach-Inv k reach in
      let c = (k.view s.files).created in
      let old : f ≢ c = λ e. ground (arith, v.has p, v.named f) in
      let s₁ = dropped p f s in
      let (s₂, a) = take_over q f s₁ (ground (arith, ep)) (ground (arith, view-dropped p f s)) in
      let (t, b) =
        join r c s₂ (ground (arith, a.others r)) (ground (arith, a.lock, view-dropped p f s))
          (ground (arith, a.created, view-dropped p f s))
          (ground (arith, a.locks_kept c, old, view-dropped p f s, v.fresh c)) in
      (
        t,
        Steps-append {t = s₁} {u = t} (drop_steps p f s ep)
            (Steps-append {t = s₂} {u = t} a.steps b.steps),
        ground (arith, b.others q, a.up),
        b.up,
        old,
        b.socket,
      )

  -- Where binding `p` is up and `r` has not begun, from every orderly reachable state: a `drop` of `p`
  -- whose two removals `r` comes between leaves `r` up, with the lock, and its socket unlinked.
  pub unlinked_successor :
      {s : Dir k} (p r f : ℕ)
      → Reach k s
      → s.pc p ≡ listening f
      → s.pc r ≡ idle
      → (t : Dir k) × Steps k s t
        × (t.pc r ≡ listening (k.view s.files).created)
        × ((k.view t.files).socket ≡ none)
  unlinked_successor {s} p r f reach ep er =
      let v = Reach-Inv k reach in
      let s₁ = to k s (k.remove_lock s.files) p (unlocking f) in
      let (s₂, b) =
        join r (k.view s.files).created s₁ (ground (arith, ep))
          (ground (arith, k.view-remove_lock s.files)) (ground (arith, k.view-remove_lock s.files))
          (ground (arith, k.view-remove_lock s.files, v.fresh (k.view s.files).created)) in
      let waits : s₂.pc p ≡ unlocking f = ground (arith, b.others p) in
      let s₃ = to k s₂ (k.remove_socket s₂.files) p (unlinked f) in
      (
        s₃,
        then (removes_lock p f ep)
            (Steps-append {t = s₂} {u = s₃} b.steps (then (removes_socket p f waits) here)),
        ground (arith, b.up),
        ground (arith, k.view-remove_socket s₂.files),
      )
