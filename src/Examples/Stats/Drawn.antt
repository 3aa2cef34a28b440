-- ===== src/Examples/Stats/Drawn.antt =====
-- The histogram draws each sample once, in the bucket that is its own.
use strong_ipc.Prelude.{
  ℕ, zero, suc, ◌+◌, ◌^◌, ◌≤◌, ◌<◌, ◌≡◌, inl, inr, refl, ap, ◌∙◌, some, List, [], ◌∷◌, ◌++◌, length,
  ◌==◌, arith,
}
use native.Mathlib.Nat.{eq-or-lt_of_le}
use mathlib.Core.List.{Perm, perm_middle}
use strong_ipc.Examples.Stats.{ℤ, pos, negsuc, clamp, zeros, count_at, count_all}
use strong_ipc.Examples.Stats.Order.{count, count-le_length, Perm-count}

-- How many samples each bucket has, of `n` from the one given
abbrev pub tallies : (ℕ → ℕ) → ℕ → ℕ → List ℕ → List ℕ
tallies bucket zero i l = []
tallies bucket (suc n) i l = count (λ s. bucket s == i) l ∷ tallies bucket n (suc i) l

abbrev pub total : List ℕ → ℕ
total [] = 0
total (c ∷ counts) = c + total counts

total-zeros : (n : ℕ) → total (zeros n) ≡ 0
unfolding zeros
total-zeros zero = refl
total-zeros (suc n) = omega (arith, total-zeros n)

module _ (bucket : ℕ → ℕ) where
  pub zeros-tallies : (n i : ℕ) → zeros n ≡ tallies bucket n i []
  unfolding zeros
  zeros-tallies zero i = refl
  zeros-tallies (suc n) i = ap (◌∷◌ 0) (zeros-tallies n (suc i))

  tallies-skip :
      (n i s : ℕ) (l : List ℕ) → bucket s < i → tallies bucket n i (s ∷ l) ≡ tallies bucket n i l
  tallies-skip zero i s l h = refl
  tallies-skip (suc n) i s l h = rw (tallies-skip n (suc i) s l (omega arith)) (ground arith)

  count_at-tallies :
      (n k i s : ℕ) (l : List ℕ)
      → bucket s ≡ i + k
      → k < n
      → length l + 1 < 2 ^ 64
      → count_at k (tallies bucket n i l) ≡ some (tallies bucket n i (s ∷ l))
  unfolding count_at
  count_at-tallies zero k i s l e h b = absurd (omega arith)
  count_at-tallies (suc n) zero i s l e h b =
      rw (tallies-skip n (suc i) s l (omega arith))
        (ground (arith, count-le_length (λ s'. bucket s' == i) l))
  count_at-tallies (suc n) (suc k) i s l e h b =
      rw (count_at-tallies n k (suc i) s l (omega arith) (omega arith) b) (ground arith)

  tallies-perm : (n i : ℕ) {l r : List ℕ} → Perm l r → tallies bucket n i l ≡ tallies bucket n i r
  tallies-perm zero i p = refl
  tallies-perm (suc n) i p = rw (Perm-count (λ s. bucket s == i) p, tallies-perm n (suc i) p) refl

  total-tallies_step :
      (n i s : ℕ) (l : List ℕ)
      → i ≤ bucket s
      → bucket s < i + n
      → total (tallies bucket n i (s ∷ l)) ≡ suc (total (tallies bucket n i l))
  total-tallies_step zero i s l h b = absurd (omega arith)
  total-tallies_step (suc n) i s l h b = elim (eq-or-lt_of_le h) [
    | inl e ↦ rw (tallies-skip n (suc i) s l (omega arith)) (ground arith)
    | inr lt ↦ rw (total-tallies_step n (suc i) s l lt (omega arith)) (ground arith)
  ]

  pub total-tallies :
      (n : ℕ) → ((s : ℕ) → bucket s < n) → (l : List ℕ) → total (tallies bucket n 0 l) ≡ length l
  total-tallies n h [] = rw (← zeros-tallies n 0) (total-zeros n)
  total-tallies n h (s ∷ l) =
      total-tallies_step n 0 s l (omega arith) (omega (arith, h s)) ∙ ap suc (total-tallies n h l)

clamp_bound : (n : ℕ) (z : ℤ) → 0 < n → clamp n z < n
clamp_bound zero z h = h
clamp_bound (suc n) (pos i) h = omega arith
clamp_bound (suc n) (negsuc i) h = omega arith

module _ (log_ceil : ℕ → ℕ → ℕ) (log_floor : ℕ → ℕ → ℤ) where
  -- The bucket of a sample, of `n` from the fastest sample up
  abbrev pub bucket_of : ℕ → ℕ → ℕ → ℕ
  bucket_of first n s = clamp n (log_floor first s)

  pub bucket_of_bound : (first n s : ℕ) → 0 < n → bucket_of first n s < n
  bucket_of_bound first n s h = clamp_bound n (log_floor first s) h

  pub count_all-tallies :
      (first n : ℕ) (samples l : List ℕ)
      → 0 < n
      → length samples + length l < 2 ^ 64
      → count_all log_ceil log_floor first n samples (tallies (bucket_of first n) n 0 l)
        ≡ some (tallies (bucket_of first n) n 0 (samples ++ l))
  unfolding count_all
  count_all-tallies first n [] l h b = refl
  count_all-tallies first n (s ∷ samples) l h b =
      rw
        (
          count_at-tallies (bucket_of first n) n (bucket_of first n s) 0 s l (omega arith)
              (bucket_of_bound first n s h) (omega arith),
          count_all-tallies first n samples (s ∷ l) h (omega arith),
        )
        (ap some (tallies-perm (bucket_of first n) n 0 (perm_middle samples l)))
