-- ===== src/Examples/Stats.antt =====
-- How examples/bench.rs and examples/paced.rs sum up the samples of a phase: `summarize`, its order
-- statistics, and `histogram` of bench.rs. Samples are in nanoseconds. What the standard library and the
-- floating-point arithmetic do is a parameter: see the sections.
pub mod Order
pub mod Laws
pub mod Drawn
pub mod Bars
mod Tests
use strong_ipc.Prelude.{
  ℕ, zero, suc, ◌+◌, ◌*◌, ◌≡◌, ◌≢◌, Option, none, some, List, [], ◌∷◌, length, map, leb, ◌==◌,
  if◌then◌else◌, ◌>>=◌,
}
use Prim.Native.Nat.{◌/◌, min, max}
use strong_ipc.Examples.Ordering.{u64}

-- `l[i]`, where none is a panic, and `last`
pub get_elem? : List ℕ → ℕ → Option ℕ
get_elem? [] i = none
get_elem? (a ∷ l) zero = some a
get_elem? (a ∷ l) (suc i) = get_elem? l i

pub last : List ℕ → Option ℕ
last [] = none
last (a ∷ []) = some a
last (a ∷ b ∷ l) = last (b ∷ l)

pub sum : List ℕ → ℕ
sum [] = 0
sum (a ∷ l) = u64 (a + sum l)

pub record Stats (F : Type 0) : Type 0 where
  pub p50 : F
  pub p90 : F
  pub p99 : F
  pub p999 : F
  pub max_of : F
  pub mean : F
  pub samples : List ℕ

-- `F` is f64 and `micros` is `ns as f64 / 1000.0`; `average` is the mean of a sum and a number of
-- samples; `position n q` is `((n as f64 - 1.0) * q).round() as usize`, `q` in thousandths; `sort` is
-- `sort_unstable`.
module _ {F : Type 0} (micros : ℕ → F) (average : ℕ → ℕ → F) (position : ℕ → ℕ → ℕ)
    (sort : List ℕ → List ℕ) where
  abbrev pub at : List ℕ → ℕ → Option F
  at samples q = do ns ← get_elem? samples (position (length samples) q); some (micros ns)

  abbrev pub rank : List ℕ → Option (Stats F)
  rank samples = do
    p50 ← at samples 500
    p90 ← at samples 900
    p99 ← at samples 990
    p999 ← at samples 999
    ns ← last samples
    some (record {
      p50 = p50;
      p90 = p90;
      p99 = p99;
      p999 = p999;
      max_of = micros ns;
      mean = average (sum samples) (length samples);
      samples = samples;
    })

  -- none: the panic on no samples
  unfoldable pub summarize : List ℕ → Option (Stats F)
  unfolding get_elem? last sum
  summarize samples = rank (sort samples)

-- An isize
pub data ℤ : Type 0 where
  pos : ℕ → ℤ
  negsuc : ℕ → ℤ

-- `clamp(0, buckets as isize - 1) as usize`, of a positive number of buckets
abbrev pub clamp : ℕ → ℤ → ℕ
clamp zero z = 0
clamp (suc top) (pos i) = min i top
clamp (suc top) (negsuc i) = 0

pub zeros : ℕ → List ℕ
zeros zero = []
zeros (suc n) = 0 ∷ zeros n

-- `counts[i] += 1`, where none is a panic
pub count_at : ℕ → List ℕ → Option (List ℕ)
count_at i [] = none
count_at zero (c ∷ counts) = some (u64 (c + 1) ∷ counts)
count_at (suc i) (c ∷ counts) = do counts' ← count_at i counts; some (c ∷ counts')

unfoldable pub peak : List ℕ → ℕ
peak [] = 0
peak (c ∷ counts) = max c (peak counts)

-- The length of a bar
abbrev pub bar : ℕ → ℕ → ℕ
bar top count = if count == 0 then 0 else max (u64 (count * 44) / top) 1

abbrev pub bars : List ℕ → List (ℕ × ℕ)
bars counts = map (λ count. (count, bar (max (peak counts) 1) count)) counts

-- `log_ceil first last` is `(hi / lo).log(step).ceil() as usize` and `log_floor first s` is
-- `((us / lo).log(step).floor() as isize)`, with `lo`, `hi` and `us` of the samples given.
module _ (log_ceil : ℕ → ℕ → ℕ) (log_floor : ℕ → ℕ → ℤ) where
  abbrev pub buckets : ℕ → ℕ → ℕ
  buckets first top = min (max (u64 (log_ceil first top + 1)) 1) 24

  pub count_all : ℕ → ℕ → List ℕ → List ℕ → Option (List ℕ)
  unfolding count_at
  count_all first n [] counts = some counts
  count_all first n (s ∷ samples) counts =
      count_at (clamp n (log_floor first s)) counts >>= count_all first n samples

  -- The rows drawn, each with its count and the length of its bar; none is a panic.
  unfoldable pub histogram : List ℕ → Option (List (ℕ × ℕ))
  unfolding last zeros peak count_all
  histogram [] = some []
  histogram (first ∷ samples) = do
    top ← last (first ∷ samples)
    counts ← count_all first (buckets first top) (first ∷ samples) (zeros (buckets first top))
    some (bars counts)
