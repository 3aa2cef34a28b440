-- ===== src/Examples/Proc.antt =====
-- What examples/bench.rs and examples/paced.rs read of /proc: processor time from `stat` and memory from
-- `status`. Text is a list of its characters' codes; the files are ASCII but for a process's name.
pub mod Laws
mod Tests
use strong_ipc.Prelude.{
  ℕ, zero, suc, ◌+◌, Bool, true, false, ◌&&◌, ◌||◌, Option, none, some, List, [], ◌∷◌, ◌++◌, leb,
  ◌==◌, if◌then◌else◌, ◌>>=◌,
}
use strong_ipc.Examples.Ordering.{u64}

-- `&s[s.rfind(c)? + 1..]`
abbrev pub or_here : Bool → List ℕ → Option (List ℕ) → Option (List ℕ)
or_here b s none = if b then some s else none
or_here b s (some r) = some r

pub after_last : ℕ → List ℕ → Option (List ℕ)
after_last c [] = none
after_last c (x ∷ s) = or_here (x == c) s (after_last c s)

-- `char::is_whitespace`, for ASCII
abbrev pub is_space : ℕ → Bool
is_space c = c == 32 || (leb 9 c && leb c 13)

-- The word that a text begins with, and the words behind it
abbrev pub flush : List ℕ × List (List ℕ) → List (List ℕ)
flush ([], ws) = ws
flush (c ∷ w, ws) = (c ∷ w) ∷ ws

abbrev pub push_char : ℕ → List ℕ × List (List ℕ) → List ℕ × List (List ℕ)
push_char c x = if is_space c then ([], flush x) else (c ∷ x.0, x.1)

pub first_word : List ℕ → List ℕ × List (List ℕ)
first_word [] = ([], [])
first_word (c ∷ s) = push_char c (first_word s)

unfoldable pub split_whitespace : List ℕ → List (List ℕ)
unfolding first_word
split_whitespace s = flush (first_word s)

abbrev pub nth : {A : Type 0} → ℕ → List A → Option A
nth n [] = none
nth zero (x ∷ l) = some x
nth (suc n) (x ∷ l) = nth n l

abbrev pub starts_with : List ℕ → List ℕ → Bool
starts_with s [] = true
starts_with [] (k ∷ key) = false
starts_with (c ∷ s) (k ∷ key) = c == k && starts_with s key

-- `lines`. A carriage return before the end of a line is left in place: `split_whitespace` drops it.
abbrev pub onto_line : ℕ → List (List ℕ) → List (List ℕ)
onto_line c [] = (c ∷ []) ∷ []
onto_line c (l ∷ ls) = (c ∷ l) ∷ ls

abbrev pub push_line : ℕ → List (List ℕ) → List (List ℕ)
push_line c ls = if c == 10 then [] ∷ ls else onto_line c ls

pub lines : List ℕ → List (List ℕ)
lines [] = []
lines (c ∷ s) = push_line c (lines s)

abbrev pub find_line : List ℕ → List (List ℕ) → Option (List ℕ)
find_line key [] = none
find_line key (l ∷ ls) = if starts_with l key then some l else find_line key ls

-- `parse` is `str::parse::<u64>`, and a file is what `read_to_string(…).ok()` gives of it.
module _ (parse : List ℕ → Option ℕ) where
  abbrev pub add_times : ℕ → ℕ → Option ℕ
  add_times utime stime = some (u64 (utime + stime))

  abbrev pub ticks_of : List (List ℕ) → Option ℕ
  ticks_of fields = do
    utime ← nth 11 fields >>= parse
    stime ← nth 12 fields >>= parse
    add_times utime stime

  -- `cpu_seconds`, in clock ticks
  unfoldable pub cpu_ticks : Option (List ℕ) → Option ℕ
  unfolding after_last split_whitespace
  cpu_ticks stat = do s ← stat; rest ← after_last b')' s; ticks_of (split_whitespace rest)

  -- `status_kb` of bench.rs
  unfoldable pub status_kb : List ℕ → Option (List ℕ) → Option ℕ
  unfolding lines split_whitespace
  status_kb key status = do
    s ← status
    l ← find_line key (lines s)
    value ← nth 1 (split_whitespace l)
    parse value

  -- `rss_kb` and `peak_rss_kb` of bench.rs, `rss_kb` of paced.rs
  abbrev pub kb_or_zero : List ℕ → Option (List ℕ) → ℕ
  kb_or_zero key status = elim (status_kb key status) [ none ↦ 0 | some n ↦ n ]
