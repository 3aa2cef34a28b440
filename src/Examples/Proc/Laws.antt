-- ===== src/Examples/Proc/Laws.antt =====
-- Whatever a process is called, its times are read right.
use strong_ipc.Prelude.{
  ℕ, ◌+◌, ◌≡◌, ◌≢◌, ◌∙◌, ap, refl, true, false, Option, none, some, List, [], ◌∷◌, ◌++◌, All,
  All-append, All-weaken, arith,
}
use strong_ipc.Examples.Ordering.{u64}
use strong_ipc.Examples.Proc.{
  after_last, is_space, flush, first_word, split_whitespace, nth, starts_with, lines, find_line,
  cpu_ticks, status_kb,
}

-- Characters of a field, and a field: no whitespace, no closing parenthesis
abbrev pub IsInk : ℕ → Type 0
IsInk c = (is_space c ≡ false) × (c ≢ b')')

abbrev pub IsWord : List ℕ → Type 0
IsWord w = (w ≢ []) × All IsInk w

-- The fields of `stat` behind the name: each after a blank, then the line's end
abbrev pub spaced : List (List ℕ) → List ℕ
spaced [] = 10 ∷ []
spaced (w ∷ ws) = 32 ∷ (w ++ spaced ws)

first_word-word :
    (w : List ℕ) (c : ℕ) (s : List ℕ)
    → All IsInk w
    → is_space c ≡ true
    → first_word (w ++ (c ∷ s)) ≡ (w, split_whitespace s)
unfolding split_whitespace
first_word-word [] c s h e = rw e refl
first_word-word (x ∷ w) c s h e = rw (first_word, h.0.0, first_word-word w c s h.1 e) refl

split_whitespace-word :
    (w : List ℕ) (c : ℕ) (s : List ℕ)
    → IsWord w
    → is_space c ≡ true
    → split_whitespace (w ++ (c ∷ s)) ≡ w ∷ split_whitespace s
unfolding split_whitespace
split_whitespace-word [] c s h e = absurd (h.0 refl)
split_whitespace-word (x ∷ w) c s h e = ap flush (first_word-word (x ∷ w) c s h.1 e)

pub split_whitespace-spaced :
    (ws : List (List ℕ)) → All IsWord ws → split_whitespace (spaced ws) ≡ ws
unfolding split_whitespace
split_whitespace-spaced [] h = refl
split_whitespace-spaced (w ∷ []) h = split_whitespace-word w 10 [] h.0 refl
split_whitespace-spaced (w ∷ v ∷ ws) h =
    split_whitespace-word w 32 (v ++ spaced ws) h.0 refl
    ∙ ap (◌∷◌ w) (split_whitespace-spaced (v ∷ ws) h.1)

after_last-none : (c : ℕ) (s : List ℕ) → All (λ x. x ≢ c) s → after_last c s ≡ none
unfolding after_last
after_last-none c [] h = refl
after_last-none c (x ∷ s) h = ground (arith, after_last-none c s h.1)

-- The last `c` is the one behind which there is none, whatever stands before it.
after_last-append :
    (c : ℕ) (front tail : List ℕ)
    → after_last c tail ≡ none
    → after_last c (front ++ (c ∷ tail)) ≡ some tail
unfolding after_last
after_last-append c [] tail h = ground arith
after_last-append c (x ∷ front) tail h = rw (after_last, after_last-append c front tail h) refl

spaced-plain : (ws : List (List ℕ)) → All IsWord ws → All (λ x. x ≢ b')') (spaced ws)
spaced-plain [] h = (omega arith, tt)
spaced-plain (w ∷ ws) h = (
  omega arith,
  All-append (λ x. x ≢ b')') w (spaced ws) (All-weaken IsInk (λ x. x ≢ b')') (λ x i. i.1) w h.0.1)
      (spaced-plain ws h.1),
)

-- A line of `stat`: the process's number, its name in parentheses, and the other fields.
abbrev pub stat_line : List ℕ → List ℕ → List (List ℕ) → List ℕ
stat_line pid comm fields = (pid ++ (32 ∷ b'(' ∷ comm)) ++ (b')' ∷ spaced fields)

module _ (parse : List ℕ → Option ℕ) where
  -- The times are read right whatever the process is called, with blanks and parentheses in its name:
  -- the sum of the twelfth and the thirteenth field behind the name, if they are numbers.
  pub cpu_ticks-stat_line :
      (pid comm : List ℕ) (fields : List (List ℕ)) (a b : List ℕ) (utime stime : ℕ)
      → All IsWord fields
      → nth 11 fields ≡ some a
      → nth 12 fields ≡ some b
      → parse a ≡ some utime
      → parse b ≡ some stime
      → cpu_ticks parse (some (stat_line pid comm fields)) ≡ some (u64 (utime + stime))
  unfolding cpu_ticks
  cpu_ticks-stat_line pid comm fields a b utime stime h e f p q =
      rw
        (
          after_last-append b')' (pid ++ (32 ∷ b'(' ∷ comm)) (spaced fields)
              (after_last-none b')' (spaced fields) (spaced-plain fields h)),
          split_whitespace-spaced fields h,
          e,
          p,
          f,
          q,
        )
        refl

-- The lines of a file, each with its end
abbrev pub unlines : List (List ℕ) → List ℕ
unlines [] = []
unlines (l ∷ ls) = l ++ (10 ∷ unlines ls)

lines-append : (l : List ℕ) (s : List ℕ) → All (λ c. c ≢ 10) l → lines (l ++ (10 ∷ s)) ≡ l ∷ lines s
unfolding lines
lines-append [] s h = refl
lines-append (c ∷ l) s h = rw (lines-append l s h.1) (ground (arith, h.0))

pub lines-unlines : (ls : List (List ℕ)) → All (All (λ c. c ≢ 10)) ls → lines (unlines ls) ≡ ls
unfolding lines
lines-unlines [] h = refl
lines-unlines (l ∷ ls) h = lines-append l (unlines ls) h.0 ∙ ap (◌∷◌ l) (lines-unlines ls h.1)

starts_with-append : (key s : List ℕ) → starts_with (key ++ s) key ≡ true
starts_with-append [] [] = refl
starts_with-append [] (c ∷ s) = refl
starts_with-append (k ∷ key) s = ground (arith, starts_with-append key s)

find_line-append :
    (key l : List ℕ) (before after : List (List ℕ))
    → All (λ x. starts_with x key ≡ false) before
    → starts_with l key ≡ true
    → find_line key (before ++ (l ∷ after)) ≡ some l
find_line-append key l [] after h e = rw e refl
find_line-append key l (x ∷ before) after h e = rw h.0 (find_line-append key l before after h.1 e)

split_whitespace-skip :
    (blanks s : List ℕ)
    → All (λ c. is_space c ≡ true) blanks
    → split_whitespace (blanks ++ s) ≡ split_whitespace s
unfolding split_whitespace
split_whitespace-skip [] s h = refl
split_whitespace-skip (c ∷ blanks) s h = rw (first_word, h.0) (split_whitespace-skip blanks s h.1)

-- A line of `status`: a key, blanks, a value, a blank and what follows.
abbrev pub status_line : List ℕ → ℕ → List ℕ → List ℕ → List ℕ → List ℕ
status_line key c blanks value unit = key ++ (c ∷ (blanks ++ (value ++ (32 ∷ unit))))

split_whitespace-status_line :
    (key : List ℕ) (c : ℕ) (blanks value unit : List ℕ)
    → IsWord key
    → All (λ x. is_space x ≡ true) (c ∷ blanks)
    → IsWord value
    → split_whitespace (status_line key c blanks value unit) ≡ key ∷ value ∷ split_whitespace unit
split_whitespace-status_line key c blanks value unit k b v =
    split_whitespace-word key c (blanks ++ (value ++ (32 ∷ unit))) k b.0
    ∙ ap (◌∷◌ key) (
        split_whitespace-skip blanks (value ++ (32 ∷ unit)) b.1
        ∙ split_whitespace-word value 32 unit v refl)

module _ (parse : List ℕ → Option ℕ) where
  -- The value read is that of the first line that begins with the key, wherever it stands, whatever blanks
  -- are before it and whatever follows it.
  pub status_kb-unlines :
      (key : List ℕ) (before after : List (List ℕ)) (c : ℕ) (blanks value unit : List ℕ) (kb : ℕ)
      → All (All (λ x. x ≢ 10)) (before ++ (status_line key c blanks value unit ∷ after))
      → All (λ l. starts_with l key ≡ false) before
      → IsWord key
      → All (λ x. is_space x ≡ true) (c ∷ blanks)
      → IsWord value
      → parse value ≡ some kb
      → status_kb parse key
          (some (unlines (before ++ (status_line key c blanks value unit ∷ after))))
        ≡ some kb
  unfolding status_kb
  status_kb-unlines key before after c blanks value unit kb h g k b v p =
      rw
        (
          lines-unlines (before ++ (status_line key c blanks value unit ∷ after)) h,
          find_line-append key (status_line key c blanks value unit) before after g
              (starts_with-append key (c ∷ (blanks ++ (value ++ (32 ∷ unit))))),
          split_whitespace-status_line key c blanks value unit k b v,
        )
        p
