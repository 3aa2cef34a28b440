-- ===== src/Prelude/Family.antt =====
-- Families indexed by numbers (threads, addresses, descriptors): a write at one index, and the sum
-- of the first `n` entries.
use Prim.Native.Nat.{ℕ, zero, suc, ◌+◌, ◌≤◌, ◌<◌}
use mathlib.Core.Path.{◌≡◌, refl, subst}
use mathlib.Core.Logic.{ite, ◌≢◌, if_pos, if_neg}
use native.Mathlib.Decide.{ℕ_discrete}
use native.Mathlib.Omega.{arith}

module _ {ℓ} {A : Type ℓ} where
  abbrev pub put : (ℕ → A) → ℕ → A → ℕ → A
  put f i a j = ite (ℕ_discrete i j) a (f j)

  pub put-here : (f : ℕ → A) (i : ℕ) (a : A) → put f i a i ≡ a
  put-here f i a = if_pos (ℕ_discrete i i) refl a (f i)

  pub put-other : (f : ℕ → A) (i : ℕ) (a : A) (j : ℕ) → i ≢ j → put f i a j ≡ f j
  put-other f i a j ne = if_neg (ℕ_discrete i j) ne a (f j)

abbrev pub sum_below : ℕ → (ℕ → ℕ) → ℕ
sum_below zero g = 0
sum_below (suc n) g = g n + sum_below n g

-- Two families that agree below `n`.
pub sum_below-eq :
    (n : ℕ) (g h : ℕ → ℕ) → ((j : ℕ) → j < n → g j ≡ h j) → sum_below n g ≡ sum_below n h
sum_below-eq zero g h e = refl
sum_below-eq (suc n) g h e =
    omega (arith, e n (omega arith), sum_below-eq n g h (λ j lt. e j (omega arith)))

-- Two families that agree but at `i`.
pub sum_below-change :
    (n i : ℕ) (g h : ℕ → ℕ)
    → i < n
    → ((j : ℕ) → i ≢ j → g j ≡ h j)
    → sum_below n h + g i ≡ sum_below n g + h i
sum_below-change zero i g h lt e = absurd (omega arith)
sum_below-change (suc n) i g h lt e = elim (ℕ_discrete i n) [
  | yes p ↦ ground (arith, sum_below-eq n g h (λ j q. e j (omega arith)))
  | no p ↦ omega (arith, e n p, sum_below-change n i g h (omega arith) e)
]

-- A family of zeros adds up to zero, and a sum of zero has only zeros.
pub sum_below-zero : (n : ℕ) (g : ℕ → ℕ) → ((j : ℕ) → g j ≡ 0) → sum_below n g ≡ 0
sum_below-zero zero g e = refl
sum_below-zero (suc n) g e = omega (arith, e n, sum_below-zero n g e)

pub sum_below-le : (n : ℕ) (g : ℕ → ℕ) → ((j : ℕ) → g j ≤ 1) → sum_below n g ≤ n
sum_below-le zero g h = omega arith
sum_below-le (suc n) g h = omega (arith, h n, sum_below-le n g h)

-- The sum after one write.
pub sum_below-put {ℓ} :
    {A : Type ℓ} (w : A → ℕ) (n i : ℕ) (f : ℕ → A) (a : A)
    → i < n
    → sum_below n (λ j. w (put f i a j)) + w (f i) ≡ sum_below n (λ j. w (f j)) + w a
sum_below-put w n i f a lt =
    ground
      (arith, sum_below-change n i (λ j. w (f j)) (λ j. w (put f i a j)) lt (λ j q. ground arith))

-- What holds of the written entry and of all others holds of the family.
pub put_elim {ℓ κ} :
    {A : Type ℓ} (P : ℕ → A → Type κ) (f : ℕ → A) (i : ℕ) (a : A)
    → P i a
    → ((j : ℕ) → i ≢ j → P j (f j))
    → (j : ℕ) → P j (put f i a j)
put_elim P f i a here there j = elim (ℕ_discrete i j) [
  | yes e ↦ rw (if_pos _ e) (subst (λ x. P x a) e here)
  | no ne ↦ rw (if_neg _ ne) (there j ne)
]
