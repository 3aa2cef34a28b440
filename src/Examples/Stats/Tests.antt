-- ===== src/Examples/Stats/Tests.antt =====
-- A few samples, summed up and drawn.
use strong_ipc.Prelude.{
  ℕ, ◌+◌, ◌-◌, ◌*◌, ◌≤◌, ◌≡◌, refl, none, some, List, [], ◌∷◌, All, All-weaken, leb, if◌then◌else◌,
  Bool-cases, inl, inr, arith, leb→le,
}
use Prim.Native.Nat.{◌/◌}
use mathlib.Core.List.{Perm}
use mathlib.Core.List.Perm
use strong_ipc.Examples.Stats.{ℤ, pos, negsuc, clamp, sum, summarize, histogram}
use strong_ipc.Examples.Stats.Order.{IsSorted}
use strong_ipc.Examples.Stats.Laws.{IsNear, IsRanking, stats_of, summarize-IsRanking}

-- The nearest index
abbrev nearest : ℕ → ℕ → ℕ
nearest n q = ((n - 1) * q + 500) / 1000

nearest-IsNear : IsNear nearest
nearest-IsNear n q h b = (omega arith, omega arith)

-- A sort
abbrev insert : ℕ → List ℕ → List ℕ
insert a [] = a ∷ []
insert a (b ∷ l) = if leb a b then a ∷ b ∷ l else b ∷ insert a l

abbrev sorted_of : List ℕ → List ℕ
sorted_of [] = []
sorted_of (a ∷ l) = insert a (sorted_of l)

All-insert : (P : ℕ → Type 0) (a : ℕ) (l : List ℕ) → P a → All P l → All P (insert a l)
All-insert P a [] h t = (h, tt)
All-insert P a (b ∷ l) h t = elim (Bool-cases (leb a b)) [
  | inl e ↦ rw e (h, t)
  | inr e ↦ rw e (t.0, All-insert P a l h t.1)
]

insert-IsSorted : (a : ℕ) (l : List ℕ) → IsSorted l → IsSorted (insert a l)
insert-IsSorted a [] h = (tt, tt)
insert-IsSorted a (b ∷ l) h = elim (Bool-cases (leb a b)) [
  | inl e ↦ rw e (
    (leb→le a b e, All-weaken (λ x. b ≤ x) (λ x. a ≤ x) (λ x m. omega (arith, leb→le a b e)) l h.0),
    h,
  )
  | inr e ↦ rw e (All-insert (λ x. b ≤ x) a l (ground arith) h.0, insert-IsSorted a l h.1)
]

sorted_of-IsSorted : (l : List ℕ) → IsSorted (sorted_of l)
sorted_of-IsSorted [] = tt
sorted_of-IsSorted (a ∷ l) = insert-IsSorted a (sorted_of l) (sorted_of-IsSorted l)

insert-perm : (a : ℕ) (l : List ℕ) → Perm (insert a l) (a ∷ l)
insert-perm a [] = Perm.refl (a ∷ [])
insert-perm a (b ∷ l) = elim (Bool-cases (leb a b)) [
  | inl e ↦ rw e (Perm.refl (a ∷ b ∷ l))
  | inr e ↦ rw e (Perm.trans (Perm.cons b (insert-perm a l)) (Perm.swap a b l))
]

sorted_of-perm : (l : List ℕ) → Perm (sorted_of l) l
sorted_of-perm [] = Perm.refl []
sorted_of-perm (a ∷ l) = Perm.trans (insert-perm a (sorted_of l)) (Perm.cons a (sorted_of-perm l))

abbrev some_samples : List ℕ
some_samples = 30 ∷ 10 ∷ 20 ∷ 90 ∷ 40 ∷ []

summarize-IsRanking_example :
    (a : ℕ) × (b : ℕ) × (c : ℕ) × (d : ℕ) × (m : ℕ) × (summarize
        (λ ns. ns)
        ◌+◌
        nearest
        sorted_of
        some_samples
      ≡ some (stats_of (λ ns. ns) (sum some_samples + 5) (sorted_of some_samples) a b c d m))
    × IsRanking some_samples a b c d m
summarize-IsRanking_example =
    summarize-IsRanking (λ ns. ns) ◌+◌ nearest sorted_of some_samples nearest-IsNear
      sorted_of-IsSorted sorted_of-perm (omega arith) (omega arith)

-- Rows by tens
abbrev tens_up : ℕ → ℕ → ℕ
tens_up first top = (top - first) / 10

abbrev tens : ℕ → ℕ → ℤ
tens first s = pos ((s - first) / 10)

summarize-rows :
    summarize (λ ns. ns) ◌+◌ nearest sorted_of some_samples
    ≡ some (stats_of (λ ns. ns) 195 (10 ∷ 20 ∷ 30 ∷ 40 ∷ 90 ∷ []) 30 90 90 90 90)
unfolding summarize
summarize-rows = refl

summarize-none : summarize (λ ns. ns) ◌+◌ nearest sorted_of [] ≡ none
unfolding summarize
summarize-none = refl

histogram-rows :
    histogram tens_up tens (10 ∷ 10 ∷ 25 ∷ 40 ∷ [])
    ≡ some ((2, 44) ∷ (1, 22) ∷ (0, 0) ∷ (1, 22) ∷ [])
unfolding histogram
histogram-rows = refl

-- A sample below the first, and one above the last bucket
clamp-ends : (clamp 4 (negsuc 3) ≡ 0) × (clamp 4 (pos 9) ≡ 3)
clamp-ends = (refl, refl)
