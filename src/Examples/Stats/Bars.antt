-- ===== src/Examples/Stats/Bars.antt =====
-- The bars of the histogram, and the histogram as a whole.
use strong_ipc.Prelude.{
  ℕ, zero, suc, ◌*◌, ◌^◌, ◌≤◌, ◌<◌, ◌≡◌, ◌⊎◌, inl, inr, refl, ap, ◌∙◌, some, List, [], ◌∷◌,
  append-nil, map, length, All, arith, ℕ_discrete,
}
use Prim.Native.Nat.{max, ◌/◌}
use native.Mathlib.Nat.{div-le_of_le-mul, mul-div_cancel_left, le_antisymm}
use strong_ipc.Examples.Ordering.{u64}
use strong_ipc.Examples.Stats.{ℤ, peak, bar, bars, buckets, histogram, last}
use strong_ipc.Examples.Stats.Drawn.{
  tallies, total, zeros-tallies, total-tallies, bucket_of, bucket_of_bound, count_all-tallies,
}

u64_small : (n : ℕ) → n < 2 ^ 64 → u64 n ≡ n
u64_small n h = omega arith

-- What the rows show: the counts, and the lengths of the bars
abbrev pub row_counts : List (ℕ × ℕ) → List ℕ
row_counts rows = map (λ r. r.0) rows

abbrev pub row_bars : List (ℕ × ℕ) → List ℕ
row_bars rows = map (λ r. r.1) rows

-- A row: an empty bucket has no bar, another one of 1 to 44 characters.
abbrev pub IsRow : ℕ × ℕ → Type 0
IsRow (count, n) = (n ≤ 44) × (((count ≡ 0) × (n ≡ 0)) ⊎ ((1 ≤ count) × (1 ≤ n)))

peak-All : (l : List ℕ) (top : ℕ) → peak l ≤ top → All (λ c. c ≤ top) l
unfolding peak
peak-All [] top h = tt
peak-All (c ∷ l) top h = (omega arith, peak-All l top (omega arith))

All-peak : (l : List ℕ) (top : ℕ) → All (λ c. c ≤ top) l → peak l ≤ top
unfolding peak
All-peak [] top h = omega arith
All-peak (c ∷ l) top h = omega (arith, h.0, All-peak l top h.1)

peak-le_total : (l : List ℕ) → peak l ≤ total l
unfolding peak
peak-le_total [] = omega arith
peak-le_total (c ∷ l) = omega (arith, peak-le_total l)

total-peak : (l : List ℕ) → 1 ≤ total l → 1 ≤ peak l
unfolding peak
total-peak [] h = omega arith
total-peak (zero ∷ l) h = omega (arith, total-peak l (omega arith))
total-peak (suc c ∷ l) h = omega arith

-- A bar that has a length, where `count * 44` does not wrap
bar-suc : (top c : ℕ) → suc c * 44 < 2 ^ 64 → bar top (suc c) ≡ max (suc c * 44 / top) 1
bar-suc top c h = rw (u64_small (suc c * 44) h) (ground arith)

bar-IsRow : (top c : ℕ) → top * 44 < 2 ^ 64 → suc c ≤ top → IsRow (suc c, bar top (suc c))
bar-IsRow top c b h =
    let short : suc c * 44 / top ≤ 44 = div-le_of_le-mul top (omega arith) in
    (
      rw (bar-suc top c (omega arith)) (omega (arith, short)),
      inr (omega arith, rw (bar-suc top c (omega arith)) (omega arith)),
    )

All-bar-IsRow :
    (top : ℕ) (l : List ℕ)
    → 1 ≤ top
    → top * 44 < 2 ^ 64
    → All (λ c. c ≤ top) l
    → All IsRow (map (λ c. (c, bar top c)) l)
All-bar-IsRow top [] h b a = tt
All-bar-IsRow top (zero ∷ l) h b a = ((omega arith, inl (refl, refl)), All-bar-IsRow top l h b a.1)
All-bar-IsRow top (suc c ∷ l) h b a = (bar-IsRow top c b a.0, All-bar-IsRow top l h b a.1)

bar_full : (top : ℕ) → 1 ≤ top → top * 44 < 2 ^ 64 → bar top top ≡ 44
bar_full zero h b = absurd (omega arith)
bar_full (suc c) h b = bar-suc (suc c) c b ∙ rw (mul-div_cancel_left 44 {n = suc c} h) refl

-- The fullest bucket has the longest bar.
peak-bar :
    (top : ℕ) (l : List ℕ)
    → 1 ≤ top
    → top * 44 < 2 ^ 64
    → peak l ≡ top
    → 44 ≤ peak (map (bar top) l)
unfolding peak
peak-bar top [] h b e = absurd (omega arith)
peak-bar top (c ∷ l) h b e = elim (ℕ_discrete c top) [
  | yes q ↦ rw (q, bar_full top h b) (omega arith)
  | no q ↦ omega (arith, peak-bar top l h b (omega arith))
]

counts-bars : (f : ℕ → ℕ) (l : List ℕ) → row_counts (map (λ c. (c, f c)) l) ≡ l
counts-bars f [] = refl
counts-bars f (c ∷ l) = ap (◌∷◌ c) (counts-bars f l)

lengths-bars : (f : ℕ → ℕ) (l : List ℕ) → row_bars (map (λ c. (c, f c)) l) ≡ map f l
lengths-bars f [] = refl
lengths-bars f (c ∷ l) = ap (◌∷◌ (f c)) (lengths-bars f l)

lengths_le : (rows : List (ℕ × ℕ)) → All IsRow rows → All (λ n. n ≤ 44) (row_bars rows)
lengths_le [] h = tt
lengths_le (r ∷ rows) h = (h.0.0, lengths_le rows h.1)

last_some : (a : ℕ) (l : List ℕ) → (v : ℕ) × (last (a ∷ l) ≡ some v)
unfolding last
last_some a [] = (a, refl)
last_some a (b ∷ l) = last_some b l

module _ (log_ceil : ℕ → ℕ → ℕ) (log_floor : ℕ → ℕ → ℤ) where
  -- The rows of `n` buckets
  abbrev pub IsDrawn : ℕ → ℕ → List ℕ → List (ℕ × ℕ) → Type 0
  IsDrawn n first samples rows =
      (row_counts rows ≡ tallies (bucket_of log_ceil log_floor first n) n 0 samples)
      × (total (row_counts rows) ≡ length samples)
      × All IsRow rows
      × (peak (row_bars rows) ≡ 44)

  bars-IsDrawn :
      (n first : ℕ) (samples counts : List ℕ)
      → counts ≡ tallies (bucket_of log_ceil log_floor first n) n 0 samples
      → 0 < n
      → 1 ≤ length samples
      → length samples * 44 < 2 ^ 64
      → IsDrawn n first samples (bars counts)
  bars-IsDrawn n first samples counts e h one b =
      let all : total counts ≡ length samples =
        ap total e
        ∙ total-tallies (bucket_of log_ceil log_floor first n) n
            (λ s. bucket_of_bound log_ceil log_floor first n s h) samples in
      let top = max (peak counts) 1 in
      let same : peak counts ≡ top = omega (arith, total-peak counts (omega arith)) in
      let small : top * 44 < 2 ^ 64 = omega (arith, peak-le_total counts) in
      let rows : All IsRow (bars counts) =
        All-bar-IsRow top counts (omega arith) small (peak-All counts top (omega arith)) in
      (
        counts-bars (bar top) counts ∙ e,
        ap total (counts-bars (bar top) counts) ∙ all,
        rows,
        le_antisymm (All-peak (row_bars (bars counts)) 44 (lengths_le (bars counts) rows))
            (rw (lengths-bars (bar top) counts) (peak-bar top counts (omega arith) small same)),
      )

  -- Of some samples, so many that no count of 44 for each overflows, the histogram is drawn
  -- without a panic, whatever the logarithms give: it has 1 to 24 rows, each with the number of
  -- the samples whose bucket it is, so that no sample is left out. A bar has 44 characters at
  -- most, none exactly if the bucket is empty, and the longest has 44.
  pub histogram-IsDrawn :
      (first : ℕ) (samples : List ℕ)
      → length (first ∷ samples) * 44 < 2 ^ 64
      → (n : ℕ) × (rows : List (ℕ × ℕ)) × (1 ≤ n)
        × (n ≤ 24)
        × (histogram log_ceil log_floor (first ∷ samples) ≡ some rows)
        × IsDrawn n first (first ∷ samples) rows
  unfolding histogram
  histogram-IsDrawn first samples b =
      let top = last_some first samples in
      let n = buckets log_ceil log_floor first top.0 in
      let h : 0 < n = omega arith in
      let counts = tallies (bucket_of log_ceil log_floor first n) n 0 (first ∷ samples) in
      (
        n,
        bars counts,
        h,
        omega arith,
        rw
            (
              top.1,
              zeros-tallies (bucket_of log_ceil log_floor first n) n 0,
              count_all-tallies log_ceil log_floor first n (first ∷ samples) [] h (omega arith),
              append-nil (first ∷ samples),
            )
            refl,
        bars-IsDrawn n first (first ∷ samples) counts refl h (omega arith) b,
      )
