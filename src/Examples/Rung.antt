-- ===== src/Examples/Rung.antt =====
-- The client's side of `rung_raw_syscall` in examples/fdcost.rs: round trips over the raw socket, timed.
pub mod Laws
use strong_ipc.Prelude.{
  ℕ, zero, suc, ◌+◌, ◌-◌, Bool, true, false, Option, none, some, List, [], ◌∷◌, ◌>>=◌,
}
use strong_ipc.Examples.Exchange.{Received, Syscalls, xchg}

-- `with_fd.then_some(spare[0])`
abbrev pub fd_if : Bool → ℕ → Option ℕ
fd_if true spare = some spare
fd_if false spare = none

-- `n > 0`, of what `xchg` returns
abbrev pub is_some_bytes : Option Received → Bool
is_some_bytes none = false
is_some_bytes (some r) = elim r.n [ none ↦ false | some zero ↦ false | some (suc n) ↦ true ]

-- `sent_fds += 1` if there is a descriptor
abbrev pub count_fd : Option ℕ → ℕ → ℕ
count_fd none sent = sent
count_fd (some fd) sent = suc sent

module _ (k : Syscalls) where
  open k use {World}

  module _ (clock : World → ℕ) (sock : ℕ) (bytes : List ℕ) (fd : Option ℕ) where
    -- The first exchanges, whose results are not looked at
    pub warm_up : ℕ → World → World
    warm_up zero w = w
    warm_up (suc n) w = warm_up n (xchg k sock bytes fd 0 w).2

    abbrev pub checked_if : Bool → ℕ → World → Option (ℕ × World)
    checked_if true ns w = some (ns, w)
    checked_if false ns w = none

    -- One sample; none is the failed assertion.
    abbrev pub checked : ℕ → Option Received × ℕ × World → Option (ℕ × World)
    checked t0 (r, n, w) = checked_if (is_some_bytes r) (clock w - t0) w

    abbrev pub timed : List ℕ × ℕ × World → ℕ → List ℕ × ℕ × World
    timed (samples, sent, w) ns = (ns ∷ samples, sent, w)

    abbrev pub then_time :
        (World → Option (List ℕ × ℕ × World)) → Option (ℕ × World) → Option (List ℕ × ℕ × World)
    then_time rest none = none
    then_time rest (some (ns, w)) = do r ← rest w; some (timed r ns)

    pub time_rung : ℕ → ℕ → World → Option (List ℕ × ℕ × World)
    unfolding xchg
    time_rung zero sent w = some ([], sent, w)
    time_rung (suc n) sent w =
        then_time (time_rung n (count_fd fd sent)) (checked (clock w) (xchg k sock bytes fd 0 w))

    -- The samples and the number of descriptors that went out
    unfoldable pub rung_raw_syscall : (warmup iters : ℕ) → World → Option (List ℕ × ℕ × World)
    unfolding warm_up time_rung
    rung_raw_syscall warmup iters w = time_rung iters 0 (warm_up warmup w)
