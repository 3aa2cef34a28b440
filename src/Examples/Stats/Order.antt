-- ===== src/Examples/Stats/Order.antt =====
-- Order statistics: what stands at a position of a sorted list, and what a reordering leaves alone.
use strong_ipc.Prelude.{
  ℕ, zero, suc, ◌+◌, ◌≤◌, ◌<◌, ◌≡◌, refl, ◌∙◌, Bool, true, some, List, [], ◌∷◌, length, All,
  All-weaken, leb, arith, if◌then◌else◌,
}
use mathlib.Core.Path.{subst}
use mathlib.Core.List.{Perm, Permᴰ}
use mathlib.Core.Logic.{∥∥₁_elim}
use native.Mathlib.Nat.{ℕ_set}
use strong_ipc.Examples.Ordering.{u64}
use strong_ipc.Examples.Stats.{get_elem?, last, sum}

abbrev pub IsSorted : List ℕ → Type 0
IsSorted [] = Unit
IsSorted (a ∷ l) = All (λ b. a ≤ b) l × IsSorted l

-- How many entries pass a test
abbrev pub count : (ℕ → Bool) → List ℕ → ℕ
count p [] = 0
count p (a ∷ l) = (if p a then 1 else 0) + count p l

pub get_elem?-some : (l : List ℕ) (i : ℕ) → i < length l → (a : ℕ) × (get_elem? l i ≡ some a)
unfolding get_elem?
get_elem?-some [] i h = absurd (omega arith)
get_elem?-some (a ∷ l) zero h = (a, refl)
get_elem?-some (a ∷ l) (suc i) h = get_elem?-some l i (omega arith)

first_eq : (a v : ℕ) → some a ≡ some v → a ≡ v
first_eq a v e = ground arith

pub get_elem?-All {κ} :
    (P : ℕ → Type κ) (l : List ℕ) (i v : ℕ) → All P l → get_elem? l i ≡ some v → P v
unfolding get_elem?
get_elem?-All P [] i v h e = ground arith
get_elem?-All P (a ∷ l) zero v h e = subst P (first_eq a v e) h.0
get_elem?-All P (a ∷ l) (suc i) v h e = get_elem?-All P l i v h.1 e

count-All : (p : ℕ → Bool) (l : List ℕ) → All (λ a. p a ≡ true) l → count p l ≡ length l
count-All p [] h = refl
count-All p (a ∷ l) h = rw h.0 (omega (arith, count-All p l h.1))

pub get_elem?_mono :
    (l : List ℕ) (i j a b : ℕ)
    → IsSorted l
    → i ≤ j
    → get_elem? l i ≡ some a
    → get_elem? l j ≡ some b
    → a ≤ b
unfolding get_elem?
get_elem?_mono [] i j a b s h e f = ground arith
get_elem?_mono (x ∷ l) zero zero a b s h e f = ground arith
get_elem?_mono (x ∷ l) zero (suc j) a b s h e f =
    ground (arith, get_elem?-All (λ c. x ≤ c) l j b s.0 f)
get_elem?_mono (x ∷ l) (suc i) zero a b s h e f = omega arith
get_elem?_mono (x ∷ l) (suc i) (suc j) a b s h e f = get_elem?_mono l i j a b s.1 (omega arith) e f

-- In a sorted list, `suc i` entries at least are at most the one at `i`,
pub count-at_most :
    (l : List ℕ) (i v : ℕ) → IsSorted l → get_elem? l i ≡ some v → suc i ≤ count (λ x. leb x v) l
unfolding get_elem?
count-at_most [] i v s e = ground arith
count-at_most (a ∷ l) zero v s e = ground arith
count-at_most (a ∷ l) (suc i) v s e =
    ground (arith, count-at_most l i v s.1 e, get_elem?-All (λ b. a ≤ b) l i v s.0 e)

-- and all but the `i` before it are at least that.
pub count-at_least :
    (l : List ℕ) (i v : ℕ)
    → IsSorted l
    → get_elem? l i ≡ some v
    → length l ≤ count (λ x. leb v x) l + i
unfolding get_elem?
count-at_least [] i v s e = ground arith
count-at_least (a ∷ l) zero v s e =
    let all : All (λ b. leb v b ≡ true) l =
      All-weaken (λ b. a ≤ b) (λ b. leb v b ≡ true) (λ b h. ground (arith, first_eq a v e)) l s.0 in
    ground (arith, count-All (leb v) l all, first_eq a v e)
count-at_least (a ∷ l) (suc i) v s e = ground (arith, count-at_least l i v s.1 e)

pub last-get_elem? : (a : ℕ) (l : List ℕ) → last (a ∷ l) ≡ get_elem? (a ∷ l) (length l)
unfolding last get_elem?
last-get_elem? a [] = refl
last-get_elem? a (b ∷ l) = last-get_elem? b l

-- What is computed from the entries one by one, in any order, a reordering leaves alone.
module _ (f : List ℕ → ℕ) (step : ℕ → ℕ → ℕ)
    (fold : (a : ℕ) (l : List ℕ) → f (a ∷ l) ≡ step a (f l))
    (swap : (a b n : ℕ) → step a (step b n) ≡ step b (step a n)) where
  Permᴰ_invariant : {l r : List ℕ} → Permᴰ l r → f l ≡ f r
  Permᴰ_invariant Permᴰ.nil = refl
  Permᴰ_invariant (Permᴰ.cons e d) = grind (arith, fold, e, Permᴰ_invariant d)
  Permᴰ_invariant (Permᴰ.swap e f') = grind (arith, fold, swap, e, f')
  Permᴰ_invariant (Permᴰ.trans d d') = Permᴰ_invariant d ∙ Permᴰ_invariant d'

  Perm_invariant : {l r : List ℕ} → Perm l r → f l ≡ f r
  Perm_invariant {l} {r} h = ∥∥₁_elim h (ℕ_set (f l) (f r)) Permᴰ_invariant

pub Perm-count : (p : ℕ → Bool) {l r : List ℕ} → Perm l r → count p l ≡ count p r
Perm-count p =
    Perm_invariant (count p) (λ a n. (if p a then 1 else 0) + n) (λ a l. refl)
      (λ a b n. omega arith)

pub Perm-length : {l r : List ℕ} → Perm l r → length l ≡ length r
Perm-length = Perm_invariant length (λ a n. suc n) (λ a l. refl) (λ a b n. refl)

pub Perm-sum : {l r : List ℕ} → Perm l r → sum l ≡ sum r
unfolding sum
Perm-sum = Perm_invariant sum (λ a n. u64 (a + n)) (λ a l. refl) (λ a b n. omega arith)

pub count-le_length : (p : ℕ → Bool) (l : List ℕ) → count p l ≤ length l
count-le_length p [] = omega arith
count-le_length p (a ∷ l) = ground (arith, count-le_length p l)

pub count-get_elem? :
    (p : ℕ → Bool) (l : List ℕ) (i v : ℕ) → p v ≡ true → get_elem? l i ≡ some v → 1 ≤ count p l
unfolding get_elem?
count-get_elem? p [] i v h e = ground arith
count-get_elem? p (a ∷ l) zero v h e = rw (first_eq a v e, h) (omega arith)
count-get_elem? p (a ∷ l) (suc i) v h e = omega (arith, count-get_elem? p l i v h e)
