-- ===== src/Examples/Watch/Laws.antt =====
-- The watchdog stops the run at the first sample that reaches the threshold, and not before.
use strong_ipc.Prelude.{
  ℕ, ◌+◌, ◌≤◌, ◌<◌, ◌≡◌, ◌⊎◌, inl, inr, refl, ap, Bool, true, false, Bool-cases, Option, none, some,
  List, [], ◌∷◌, ◌++◌, map, All, leb, leb→le, arith,
}
use Prim.Native.Nat.{max}
use strong_ipc.Examples.Stats.{peak}
use strong_ipc.Examples.Watch.{
  Row, FdWatch, Look, Run, went, aborted, and_went, second, is_due, row_of, log_row, log_into,
  is_over, observe, sample_fds, Ping, Timed, push_sample, sample_if, client_send, after_ping,
  time_all,
}

-- Rows a second apart
abbrev pub IsSpaced : List Row → Type 0
IsSpaced [] = Unit
IsSpaced (r ∷ []) = Unit
IsSpaced (r ∷ q ∷ log) = (r.t + second ≤ q.t) × IsSpaced (q ∷ log)

abbrev pub IsLog : Option (List Row) → Type 0
IsLog none = Unit
IsLog (some log) = IsSpaced log

-- One sample after another, as the phases take them
unfoldable pub watch_all : List Look → FdWatch → Run FdWatch
watch_all [] w = went w
watch_all (look ∷ looks) w = and_went (sample_fds look w) (watch_all looks)

IsSpaced-push :
    (log : List Row) (r : Row) → IsSpaced log → is_due r.t log ≡ true → IsSpaced (log ++ (r ∷ []))
unfolding is_due
IsSpaced-push [] r h e = tt
IsSpaced-push (p ∷ []) r h e = (leb→le (p.t + second) r.t e, tt)
IsSpaced-push (p ∷ q ∷ log) r h e = (h.0, IsSpaced-push (q ∷ log) r h.1 e)

IsSpaced-log_row : (look : Look) (log : List Row) → IsSpaced log → IsSpaced (log_row look log)
IsSpaced-log_row look log h = elim (Bool-cases (is_due look.now log)) [
  | inl e ↦ rw e (IsSpaced-push log (row_of look) h e)
  | inr e ↦ rw e h
]

IsLog-log_into : (look : Look) (o : Option (List Row)) → IsLog o → IsLog (log_into look o)
IsLog-log_into look none h = tt
IsLog-log_into look (some log) h = elim (Bool-cases look.free) [
  | inl e ↦ rw e (IsSpaced-log_row look log h)
  | inr e ↦ rw e h
]

-- Below the threshold, and at it
abbrev pub IsBelow : ℕ → Look → Type 0
IsBelow threshold look = (look.mine < threshold) × (look.theirs < threshold)

abbrev pub IsOver : ℕ → Look → Type 0
IsOver threshold look = (threshold ≤ look.mine) ⊎ (threshold ≤ look.theirs)

IsOver-cases :
    (w : FdWatch) (look : Look)
    → ((is_over w look ≡ true) × IsOver w.threshold look)
      ⊎ ((is_over w look ≡ false) × IsBelow w.threshold look)
IsOver-cases w look = elim (Bool-cases (leb w.threshold look.mine)) [
  | inl e ↦ inl (rw e refl, inl (leb→le w.threshold look.mine e))
  | inr e ↦ elim (Bool-cases (leb w.threshold look.theirs)) [
    | inl f ↦ inl (rw (e, f) refl, inr (leb→le w.threshold look.theirs f))
    | inr f ↦ inr (rw (e, f) refl, (ground arith, ground arith))
  ]
]

-- What the watch has seen: the highest numbers, and a log whose rows are a second apart
abbrev pub HasSeen : FdWatch → List Look → FdWatch → Type 0
HasSeen w looks w' =
    (w'.threshold ≡ w.threshold)
    × (w'.tripped ≡ false)
    × (w'.peak_self ≡ max w.peak_self (peak (map (λ look. look.mine) looks)))
    × (w'.peak_child ≡ max w.peak_child (peak (map (λ look. look.theirs) looks)))
    × IsLog w'.timeline

-- The run went on, or it was stopped at a sample.
pub data Watched (w : FdWatch) (looks : List Look) : Run FdWatch → Type 0 where
  going :
      (w' : FdWatch)
      → All (IsBelow w.threshold) looks
      → HasSeen w looks w'
      → Watched w looks (went w')
  stopped :
      (before : List Look) (look : Look) (after : List Look)
      → looks ≡ before ++ (look ∷ after)
      → All (IsBelow w.threshold) before
      → IsOver w.threshold look
      → Watched w looks (aborted look.mine look.theirs)

Watched-cons :
    (w : FdWatch) (look : Look) (looks : List Look) (r : Run FdWatch)
    → IsBelow w.threshold look
    → Watched (observe look w) looks r
    → Watched w (look ∷ looks) r
unfolding peak
Watched-cons w look looks _ b (going w' a s) =
    going w' (b, a) (s.0, s.1, omega (arith, s.2), omega (arith, s.3), s.4)
Watched-cons w look looks _ b (stopped before l after e a o) =
    stopped (look ∷ before) l after (ap (◌∷◌ look) e) (b, a) o

-- Sample after sample, while none reaches the threshold, the run goes on: the peaks are the highest numbers
-- seen, and the log's rows stay a second apart. The run is stopped at the first sample that does, with its
-- two numbers. The watch has not tripped before, and the log, if there is one, starts with such rows.
pub watch_all-Watched :
    (looks : List Look) (w : FdWatch)
    → w.tripped ≡ false
    → IsLog w.timeline
    → Watched w looks (watch_all looks w)
unfolding watch_all sample_fds peak
watch_all-Watched [] w h g = going w tt (refl, h, omega arith, omega arith, g)
watch_all-Watched (look ∷ looks) w h g = elim (IsOver-cases w look) [
  | inl o ↦ rw (o.0, h) (stopped [] look looks refl tt o.1)
  | inr o ↦ rw o.0 (
      Watched-cons w look looks (watch_all looks (observe look w)) o.1
        (watch_all-Watched looks (observe look w) h (IsLog-log_into look w.timeline g)))
]

-- What `latency` has timed: a first part of the turns
abbrev pub HasTimed : List Ping → Run Timed → Type 0
HasTimed pings (aborted m n) = Unit
HasTimed pings (went s) = (rest : List ℕ) × (map (λ ping. ping.elapsed) pings ≡ s.0 ++ rest)

HasTimed-push_sample :
    (ping : Ping) (pings : List Ping) (r : Run Timed)
    → HasTimed pings r
    → HasTimed (ping ∷ pings) (push_sample ping.elapsed r)
HasTimed-push_sample ping pings (went s) h = (h.0, ap (◌∷◌ ping.elapsed) h.1)
HasTimed-push_sample ping pings (aborted m n) h = tt

HasTimed-and_went :
    {A : Type 0} (pings : List Ping) (r : Run A) (f : A → Run Timed)
    → ((a : A) → HasTimed pings (f a))
    → HasTimed pings (and_went r f)
HasTimed-and_went pings (went a) f h = h a
HasTimed-and_went pings (aborted m n) f h = tt

after_ping-HasTimed :
    (ping : Ping) (pings : List Ping) (k : FdWatch → Run Timed)
    → ((w : FdWatch) → HasTimed pings (k w))
    → (s : Bool × ℕ × FdWatch) → HasTimed (ping ∷ pings) (after_ping ping k s)
after_ping-HasTimed ping pings k h (true, n, w) =
    HasTimed-push_sample ping pings (and_went (sample_if ping.look w) k)
      (HasTimed-and_went pings (sample_if ping.look w) k h)
after_ping-HasTimed ping pings k h (false, n, w) = (map (λ p. p.elapsed) (ping ∷ pings), refl)

-- `latency` returns the times of a first part of its turns, in order, none left out.
pub time_all-HasTimed : (pings : List Ping) (w : FdWatch) → HasTimed pings (time_all pings w)
unfolding time_all
time_all-HasTimed [] w = ([], refl)
time_all-HasTimed (ping ∷ pings) w =
    HasTimed-and_went (ping ∷ pings) (client_send ping.tried 0 w) (after_ping ping (time_all pings))
      (after_ping-HasTimed ping pings (time_all pings) (time_all-HasTimed pings))
