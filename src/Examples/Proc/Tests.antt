-- ===== src/Examples/Proc/Tests.antt =====
-- The two files of a process, read.
use strong_ipc.Prelude.{ℕ, ◌+◌, ◌*◌, ◌-◌, ◌≡◌, refl, Option, none, some, List, [], ◌∷◌}
use strong_ipc.Examples.Proc.{cpu_ticks, status_kb, kb_or_zero}
use strong_ipc.Examples.Proc.Laws.{stat_line, unlines, status_line}

-- A decimal number
abbrev digits_from : ℕ → List ℕ → Option ℕ
digits_from n [] = some n
digits_from n (c ∷ s) = digits_from (n * 10 + (c - 48)) s

abbrev number : List ℕ → Option ℕ
number [] = none
number (c ∷ s) = digits_from 0 (c ∷ s)

-- `S`, ten zeros, `15` and `27`
abbrev dull : List ℕ
dull = b'0' ∷ []

abbrev stat_fields : List (List ℕ)
stat_fields =
    (b'S' ∷ [])
    ∷ dull
    ∷ dull
    ∷ dull
    ∷ dull
    ∷ dull
    ∷ dull
    ∷ dull
    ∷ dull
    ∷ dull
    ∷ dull
    ∷ (b'1' ∷ b'5' ∷ [])
    ∷ (b'2' ∷ b'7' ∷ [])
    ∷ dull
    ∷ []

-- A process `a) b`
cpu_ticks-parenthesis :
    cpu_ticks number (some (stat_line (b'7' ∷ []) (b'a' ∷ b')' ∷ 32 ∷ b'b' ∷ []) stat_fields))
    ≡ some 42
unfolding cpu_ticks
cpu_ticks-parenthesis = refl

status_kb-second_line :
    status_kb number (b'V' ∷ b':' ∷ []) (
      some (
        unlines (
          (b'N' ∷ [])
          ∷ status_line (b'V' ∷ b':' ∷ []) 9 (32 ∷ []) (b'6' ∷ b'4' ∷ []) (b'k' ∷ [])
          ∷ [])))
    ≡ some 64
unfolding status_kb
status_kb-second_line = refl

-- Nothing behind the name, no such line, no value, no file
cpu_ticks-short : cpu_ticks number (some (b'7' ∷ 32 ∷ b'S' ∷ [])) ≡ none
unfolding cpu_ticks
cpu_ticks-short = refl

kb_or_zero-none : kb_or_zero number (b'V' ∷ []) none ≡ 0
unfolding status_kb
kb_or_zero-none = refl

kb_or_zero-no_value : kb_or_zero number (b'V' ∷ []) (some (b'V' ∷ 10 ∷ [])) ≡ 0
unfolding status_kb
kb_or_zero-no_value = refl
