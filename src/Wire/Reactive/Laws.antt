-- ===== src/Wire/Reactive/Laws.antt =====
-- The retry loop ends once its call stops blocking, and never reports that it would block.
use strong_ipc.Prelude.{
  ℕ, zero, suc, ◌<◌, ◌≡◌, ◌⊎◌, refl, true, false, inl, inr, Option, some, none, Bool-cases, arith,
}
use strong_ipc.Io.{IoError, IoResult, ok, err}
use strong_ipc.Wire.Reactive.{blocked, retry, after_call, after_ready}

module _ {W A : Type 0} (ready : W → IoResult Unit × W) (call : W → IoResult A × W) where
  -- One round that ended in `WouldBlock`
  abbrev pub Blocks : W → W → Type 0
  Blocks w w' =
      ((ready w).0 ≡ ok tt) × (blocked (call (ready w).1).0 ≡ true) × ((call (ready w).1).1 ≡ w')

  -- How the loop may end: with the error of the reactor, or with a result of the call other than
  -- `WouldBlock`.
  abbrev pub Ends : Option (IoResult A) × W → Type 0
  Ends (none, w) = ⊥
  Ends (some r, w) =
      (u : W) × (((e : IoError) × ((ready u) ≡ (err e, w)) × (r ≡ err e))
        ⊎ (((ready u).0 ≡ ok tt) × (call (ready u).1 ≡ (r, w)) × (blocked r ≡ false)))

  after_call-Ends :
      (again : W → Option (IoResult A) × W) (w u : W)
      → ready w ≡ (ok tt, u)
      → ((v : W) → Blocks w v → Ends (again v))
      → (r : IoResult A × W) → call u ≡ r
      → Ends (after_call ready call again r)
  after_call-Ends again w u q h (a, v) e = elim (Bool-cases (blocked a)) [
    | inl b ↦ rw b (h v (ground arith))
    | inr b ↦ rw b (w, inr (ground arith))
  ]

  after_ready-Ends :
      (again : W → Option (IoResult A) × W) (w : W)
      → ((v : W) → Blocks w v → Ends (again v))
      → (r : IoResult Unit × W) → ready w ≡ r
      → Ends (after_ready ready call again r)
  after_ready-Ends again w h (err e, u) q = (w, inl (e, q, refl))
  after_ready-Ends again w h (ok _, u) q = after_call-Ends again w u q h (call u) refl

  -- If each blocked round lowers a measure, the loop returns within that many rounds, and what it
  -- returns is the reactor's error, or the call's own result, which is not `WouldBlock`.
  pub retry-Ends :
      (measure : W → ℕ)
      → ((w w' : W) → Blocks w w' → measure w' < measure w)
      → (fuel : ℕ) (w : W) → measure w < fuel
      → Ends (retry ready call fuel w)
  unfolding retry
  retry-Ends measure falls zero w h = absurd (omega arith)
  retry-Ends measure falls (suc fuel) w h =
      after_ready-Ends (retry ready call fuel) w
        (λ v b. retry-Ends measure falls fuel v (omega (arith, falls w v b))) (ready w) refl
