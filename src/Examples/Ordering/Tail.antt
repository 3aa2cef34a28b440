-- ===== src/Examples/Ordering/Tail.antt =====
-- The end of `main` in examples/ordering.rs: it waits for the tail and gives the verdict. A call of the
-- handler is taken whole here, as if none were under way when `main` loads the counters; Torn has what
-- becomes of the verdict where one is.
pub mod Laws
pub mod Torn
use strong_ipc.Prelude.{
  ℕ, Bool, true, false, Option, none, some, List, [], ◌∷◌, ltb, if◌then◌else◌, ◌>>=◌,
}
use strong_ipc.Examples.Ordering.{messages, SeqChecker, fresh, Arrival, run, passes}

-- One round of the wait: whether the deadline is past, and what the handler gets while `main` sleeps
pub record Nap : Type 0 where
  pub over : Bool
  pub came : List Arrival

-- The loop's test. The outer none is a panic of the handler, after which the model does not look, and the
-- inner one says that the loop goes on.
abbrev pub at_end : Bool → SeqChecker → Option (Option SeqChecker) → Option (Option SeqChecker)
at_end over s rest =
    if ltb s.received messages then (if over then some (some s) else rest) else some (some s)

pub wait_tail : List Nap → SeqChecker → Option (Option SeqChecker)
unfolding run
wait_tail [] s = some none
wait_tail (nap ∷ naps) s = at_end nap.over s (run nap.came s >>= wait_tail naps)

abbrev pub verdict_of : Option SeqChecker → Option Bool
verdict_of none = none
verdict_of (some s) = some (passes s)

-- The verdict, after what has come while `main` was sending: none is a panic, or that it still waits.
unfoldable pub verdict : List Arrival → List Nap → Option Bool
unfolding wait_tail passes
verdict early naps = do s ← run early fresh; r ← wait_tail naps s; verdict_of r
