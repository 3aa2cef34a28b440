-- ===== src/Examples/Stats/Laws.antt =====
-- The percentiles are what they are called: how many samples stand on either side of each.
use strong_ipc.Prelude.{
  ℕ, ◌+◌, ◌-◌, ◌*◌, ◌^◌, ◌≤◌, ◌<◌, ◌≡◌, refl, sym, ap, ◌∙◌, some, List, [], ◌∷◌, length, leb, ◌==◌,
  arith,
}
use mathlib.Core.Path.{ap₂}
use mathlib.Core.List.{Perm}
use strong_ipc.Examples.Stats.{get_elem?, last, sum, Stats, rank, summarize}
use strong_ipc.Examples.Stats.Order.{
  IsSorted, count, get_elem?-some, get_elem?_mono, count-at_most, count-at_least, last-get_elem?,
  Perm-count, Perm-length, Perm-sum, count-le_length, count-get_elem?,
}

-- `q` thousandths of the samples are at most `v`, and the others at least `v`, but for half a sample.
abbrev pub IsQuantile : List ℕ → ℕ → ℕ → Type 0
IsQuantile samples q v =
    ((length samples - 1) * q + 500 ≤ count (λ x. leb x v) samples * 1000)
    × (length samples * 1000
        ≤ count (λ x. leb v x) samples * 1000 + ((length samples - 1) * q + 500))

-- The index that `position` gives is the one nearest to `(n - 1) * q / 1000`.
abbrev pub IsNear : (ℕ → ℕ → ℕ) → Type 0
IsNear position =
    (n q : ℕ)
    → n ≤ 2 ^ 32
    → q ≤ 1000
    → ((n - 1) * q ≤ position n q * 1000 + 500) × (position n q * 1000 ≤ (n - 1) * q + 500)

IsQuantile-at :
    (position : ℕ → ℕ → ℕ) (l : List ℕ) (q v : ℕ)
    → IsNear position
    → IsSorted l
    → length l ≤ 2 ^ 32
    → q ≤ 1000
    → get_elem? l (position (length l) q) ≡ some v
    → IsQuantile l q v
IsQuantile-at position l q v near s n h e = (
  omega (arith, near (length l) q n h, count-at_most l (position (length l) q) v s e),
  omega (arith, near (length l) q n h, count-at_least l (position (length l) q) v s e),
)

-- At a quantile below 1 of some samples there is one.
at_some :
    (position : ℕ → ℕ → ℕ) (l : List ℕ) (q : ℕ)
    → IsNear position
    → 0 < length l
    → length l ≤ 2 ^ 32
    → (length l - 1) * q ≤ (length l - 1) * 999
    → q ≤ 999
    → (v : ℕ) × (get_elem? l (position (length l) q) ≡ some v)
at_some position l q near h n m b =
    get_elem?-some l (position (length l) q) (omega (arith, near (length l) q n (omega arith)))

index_eq :
    (l : List ℕ) (v i : ℕ)
    → i ≡ length l - 1
    → get_elem? l i ≡ some v
    → get_elem? l (length l - 1) ≡ some v
index_eq l v i h e = ap (get_elem? l) (sym h) ∙ e

last_some :
    (l : List ℕ)
    → 0 < length l
    → (v : ℕ) × (last l ≡ some v) × (get_elem? l (length l - 1) ≡ some v)
last_some [] h = absurd (omega arith)
last_some (a ∷ l) h =
    let e = get_elem?-some (a ∷ l) (length l) (omega arith) in
    (e.0, last-get_elem? a l ∙ e.1, index_eq (a ∷ l) e.0 (length l) (omega arith) e.1)

-- What the statistics of some samples are: four percentiles, in order, and the maximum.
abbrev pub IsRanking : List ℕ → ℕ → ℕ → ℕ → ℕ → ℕ → Type 0
IsRanking samples p50 p90 p99 p999 top =
    IsQuantile samples 500 p50
    × IsQuantile samples 900 p90
    × IsQuantile samples 990 p99
    × IsQuantile samples 999 p999
    × (p50 ≤ p90)
    × (p90 ≤ p99)
    × (p99 ≤ p999)
    × (p999 ≤ top)
    × (count (λ x. leb x top) samples ≡ length samples)
    × (1 ≤ count (λ x. x == top) samples)

IsQuantile-perm : {l r : List ℕ} (q v : ℕ) → Perm l r → IsQuantile l q v → IsQuantile r q v
IsQuantile-perm q v p h =
    rw (← Perm-length p, ← Perm-count (λ x. leb x v) p, ← Perm-count (λ x. leb v x) p) h

IsRanking-perm :
    {l r : List ℕ} (a b c d m : ℕ) → Perm l r → IsRanking l a b c d m → IsRanking r a b c d m
IsRanking-perm a b c d m p (f, g, h, i, o₁, o₂, o₃, o₄, all, one) = (
  IsQuantile-perm 500 a p f,
  IsQuantile-perm 900 b p g,
  IsQuantile-perm 990 c p h,
  IsQuantile-perm 999 d p i,
  o₁,
  o₂,
  o₃,
  o₄,
  sym (Perm-count (λ x. leb x m) p) ∙ all ∙ Perm-length p,
  rw (← Perm-count (λ x. x == m) p) one,
)

-- The values at the places that `rank` looks at
IsRanking-sorted :
    (position : ℕ → ℕ → ℕ) (l : List ℕ) (a b c d m : ℕ)
    → IsNear position
    → IsSorted l
    → 0 < length l
    → length l ≤ 2 ^ 32
    → get_elem? l (position (length l) 500) ≡ some a
    → get_elem? l (position (length l) 900) ≡ some b
    → get_elem? l (position (length l) 990) ≡ some c
    → get_elem? l (position (length l) 999) ≡ some d
    → get_elem? l (length l - 1) ≡ some m
    → IsRanking l a b c d m
IsRanking-sorted position l a b c d m near s h n e₁ e₂ e₃ e₄ e₅ =
    let close : (q : ℕ)
        → q ≤ 1000
        → ((length l - 1) * q ≤ position (length l) q * 1000 + 500)
          × (position (length l) q * 1000 ≤ (length l - 1) * q + 500) =
      λ q b. near (length l) q n b in
    (
      IsQuantile-at position l 500 a near s n (omega arith) e₁,
      IsQuantile-at position l 900 b near s n (omega arith) e₂,
      IsQuantile-at position l 990 c near s n (omega arith) e₃,
      IsQuantile-at position l 999 d near s n (omega arith) e₄,
      get_elem?_mono l (position (length l) 500) (position (length l) 900) a b s
          (omega (arith, close 500 (omega arith), close 900 (omega arith))) e₁ e₂,
      get_elem?_mono l (position (length l) 900) (position (length l) 990) b c s
          (omega (arith, close 900 (omega arith), close 990 (omega arith))) e₂ e₃,
      get_elem?_mono l (position (length l) 990) (position (length l) 999) c d s
          (omega (arith, close 990 (omega arith), close 999 (omega arith))) e₃ e₄,
      get_elem?_mono l (position (length l) 999) (length l - 1) d m s
          (omega (arith, close 999 (omega arith))) e₄ e₅,
      omega (arith, count-le_length (λ x. leb x m) l, count-at_most l (length l - 1) m s e₅),
      count-get_elem? (λ x. x == m) l (length l - 1) m (ground arith) e₅,
    )

abbrev pub stats_of : {F : Type 0} → (ℕ → F) → F → List ℕ → ℕ → ℕ → ℕ → ℕ → ℕ → Stats F
stats_of micros mean samples p50 p90 p99 p999 top = record {
  p50 = micros p50;
  p90 = micros p90;
  p99 = micros p99;
  p999 = micros p999;
  max_of = micros top;
  mean = mean;
  samples = samples;
}

module _ {F : Type 0} (micros : ℕ → F) (average : ℕ → ℕ → F) (position : ℕ → ℕ → ℕ)
    (sort : List ℕ → List ℕ) where
  rank-stats_of :
      (l : List ℕ) (a b c d m : ℕ)
      → get_elem? l (position (length l) 500) ≡ some a
      → get_elem? l (position (length l) 900) ≡ some b
      → get_elem? l (position (length l) 990) ≡ some c
      → get_elem? l (position (length l) 999) ≡ some d
      → last l ≡ some m
      → rank micros average position sort l
        ≡ some (stats_of micros (average (sum l) (length l)) l a b c d m)
  rank-stats_of l a b c d m e₁ e₂ e₃ e₄ e₅ = rw (e₁, e₂, e₃, e₄, e₅) refl

  -- One sample or more, up to 2 ^ 32, are summed up without a panic, where `sort` gives a sorted
  -- reordering and `position` the nearest index. Each of the four percentiles is one: no fewer samples than
  -- its share, but for half a sample, are at most that, and no fewer than the rest at least that. They
  -- ascend, up to the maximum, which is a sample and which none exceeds; the mean is of the sum and the
  -- number of the samples.
  pub summarize-IsRanking :
      (samples : List ℕ)
      → IsNear position
      → ((l : List ℕ) → IsSorted (sort l))
      → ((l : List ℕ) → Perm (sort l) l)
      → 0 < length samples
      → length samples ≤ 2 ^ 32
      → (a : ℕ) × (b : ℕ) × (c : ℕ) × (d : ℕ) × (m : ℕ) × (summarize micros average position sort
            samples
          ≡ some
              (stats_of micros (average (sum samples) (length samples)) (sort samples) a b c d m))
        × IsRanking samples a b c d m
  unfolding summarize
  summarize-IsRanking samples near sorted perm h n =
      let l = sort samples in
      let h' : 0 < length l = omega (arith, h, Perm-length (perm samples)) in
      let n' : length l ≤ 2 ^ 32 = omega (arith, n, Perm-length (perm samples)) in
      let a = at_some position l 500 near h' n' (omega arith) (omega arith) in
      let b = at_some position l 900 near h' n' (omega arith) (omega arith) in
      let c = at_some position l 990 near h' n' (omega arith) (omega arith) in
      let d = at_some position l 999 near h' n' (omega arith) (omega arith) in
      let m = last_some l h' in
      (
        a.0,
        b.0,
        c.0,
        d.0,
        m.0,
        rank-stats_of l a.0 b.0 c.0 d.0 m.0 a.1 b.1 c.1 d.1 m.1
            ∙ ap₂ (λ total n. some (stats_of micros (average total n) l a.0 b.0 c.0 d.0 m.0))
                (Perm-sum (perm samples)) (Perm-length (perm samples)),
        IsRanking-perm a.0 b.0 c.0 d.0 m.0 (perm samples) (
            IsRanking-sorted position l a.0 b.0 c.0 d.0 m.0 near (sorted samples) h' n' a.1 b.1 c.1
              d.1 m.2),
      )
