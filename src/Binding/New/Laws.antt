-- ===== src/Binding/New/Laws.antt =====
-- `RefFsBinding::new` run alone is a run of the interleaved model.
use strong_ipc.Prelude.{ℕ, ◌≡◌, ◌≢◌, refl, Bool, true, false, if◌then◌else◌, none, some, arith}
use strong_ipc.Io.{IoError, IoResult, ok, err}
use strong_ipc.Binding.Paths.{Files}
use strong_ipc.Binding.{
  Pc, idle, opened, locked, cleared, listening, ended, Dir, to, opens, cannot_open, locks,
  is_locked, clears, binds, cannot_bind, registers, cannot_register, Setup, setup, Steps, here,
  then,
}
use strong_ipc.Binding.New.{acquire_lock, new_binding, stands, after_bind, after_lock}

module _ (k : Files) where
  -- From `s`, steps of binding `i` alone lead to the files `fs` and to where `p` says.
  pub Arrives : ℕ → Dir k → Pc → k.State → Type 0
  Arrives i s p fs =
      (t : Dir k) × Steps k s t
      × (t.files ≡ fs)
      × (t.pc i ≡ p)
      × ((j : ℕ) → i ≢ j → t.pc j ≡ s.pc j)

  -- A step of binding `i` first
  step-Arrives :
      (i : ℕ) (s : Dir k) (fs : k.State) (p q : Pc) (us : k.State)
      → Setup k s (to k s fs i p)
      → Arrives i (to k s fs i p) q us
      → Arrives i s q us
  unfolding Arrives
  step-Arrives i s fs p q us st (t, r, files, pc, others) =
      (t, (then) (setup st) r, files, pc, λ j ne. ground (arith, others j ne, ne))

  here-Arrives : (i : ℕ) (s : Dir k) (p : Pc) → s.pc i ≡ p → Arrives i s p s.files
  unfolding Arrives
  here-Arrives i s p e = (s, here, refl, e, λ j ne. refl)

  after_bind-Arrives :
      (i f : ℕ) (e : IoError) (registered : IoResult Unit) (s : Dir k) (b : Bool)
      → s.pc i ≡ cleared f
      → (k.bind i s.files).0 ≡ b
      → Arrives i s
          (stands (after_bind k f e registered (b, (k.bind i s.files).1)).0)
          (after_bind k f e registered (b, (k.bind i s.files).1)).1
  after_bind-Arrives i f e registered s false p q =
      step-Arrives i s _ _ _ _ (cannot_bind i f p q) (here-Arrives i _ ended (ground arith))
  after_bind-Arrives i f e (err r) s true p q = step-Arrives i s _ _ _ _ (binds i f p q) (
      step-Arrives i _ _ _ _ _ (cannot_register i f (ground arith))
        (here-Arrives i _ ended (ground arith)))
  after_bind-Arrives i f e (ok _) s true p q = step-Arrives i s _ _ _ _ (binds i f p q) (
      step-Arrives i _ _ _ _ _ (registers i f (ground arith))
        (here-Arrives i _ (listening f) (ground arith)))

  after_open-Arrives :
      (i f : ℕ) (e : IoError) (registered : IoResult Unit) (s : Dir k) (b : Bool)
      → s.pc i ≡ opened f
      → (k.try_lock i f s.files).0 ≡ b
      → Arrives i s
          (stands
            (after_lock k i e registered
              (if b then some f else none, (k.try_lock i f s.files).1)).0)
          (after_lock k i e registered (if b then some f else none, (k.try_lock i f s.files).1)).1
  after_open-Arrives i f e registered s false p q =
      step-Arrives i s _ _ _ _ (is_locked i f p q) (here-Arrives i _ ended (ground arith))
  after_open-Arrives i f e registered s true p q =
      let s₁ = to k s (k.try_lock i f s.files).1 i (locked f) in
      step-Arrives i s _ _ _ _ (locks i f p q) (
        step-Arrives i s₁ _ _ _ _ (clears i f (ground arith)) (
          after_bind-Arrives i f e registered (to k s₁ (k.remove_socket s₁.files) i (cleared f)) _
            (ground arith) refl))

  -- A call of `RefFsBinding::new` with nobody in between is a run of the interleaved model, from where
  -- the binding has not begun: every outcome of its calls, errors included, leaves the files and the
  -- binding as some steps of that binding alone do, and the other bindings where they were.
  pub new_binding-Arrives :
      (i : ℕ) (can_open : Bool) (e : IoError) (registered : IoResult Unit) (s : Dir k)
      → s.pc i ≡ idle
      → Arrives i s
          (stands (new_binding k i can_open e registered s.files).0)
          (new_binding k i can_open e registered s.files).1
  unfolding new_binding acquire_lock
  new_binding-Arrives i false e registered s p =
      step-Arrives i s _ _ _ _ (cannot_open i p) (here-Arrives i _ ended (ground arith))
  new_binding-Arrives i true e registered s p = step-Arrives i s _ _ _ _ (opens i p) (
      after_open-Arrives i (k.open_lock s.files).0 e registered
        (to k s (k.open_lock s.files).1 i (opened (k.open_lock s.files).0)) _ (ground arith) refl)
