-- ===== src/Examples/Rung/Laws.antt =====
-- The row with descriptors has sent one for each sample, which the program asserts.
use strong_ipc.Prelude.{
  ℕ, zero, suc, ◌+◌, ◌-◌, ◌≡◌, refl, ap, ◌∙◌, Bool, true, false, Option, none, some, List, length,
  arith, ◌>>=◌,
}
use strong_ipc.Examples.Exchange.{Received, Syscalls, xchg}
use strong_ipc.Examples.Exchange.Laws.{is_empty, Exchanged, xchg-Exchanged}
use strong_ipc.Examples.Rung.{
  is_some_bytes, count_fd, warm_up, checked_if, timed, then_time, time_rung, rung_raw_syscall,
}

-- A descriptor for each of some exchanges, if there is one
abbrev pub fds_of : Option ℕ → ℕ → ℕ
fds_of none n = 0
fds_of (some fd) n = n

fds_of-suc :
    (fd : Option ℕ) (sent n : ℕ) → count_fd fd sent + fds_of fd n ≡ sent + fds_of fd (suc n)
fds_of-suc none sent n = omega arith
fds_of-suc (some fd) sent n = omega arith

is_empty-is_some_bytes :
    (k : Syscalls) (r : Received) → is_some_bytes (some r) ≡ true → is_empty k r.n ≡ false
is_empty-is_some_bytes k r e = go r.n e
  where
    go :
        (n : Option ℕ)
        → elim n [ none ↦ false | some zero ↦ false | some (suc m) ↦ true ] ≡ true
        → is_empty k n ≡ false
    go none e = absurd (ground arith)
    go (some zero) e = absurd (ground arith)
    go (some (suc m)) e = refl

module _ (k : Syscalls) where
  open k use {World, opened}

  -- The descriptor tables of two worlds are the same.
  abbrev pub SameTable : World → World → Type 0
  SameTable w u = (j : ℕ) → opened u j ≡ opened w j

  module _ (clock : World → ℕ) (sock : ℕ) (bytes : List ℕ) (fd : Option ℕ) where
    -- What the timed exchanges give: as many samples and descriptors as exchanges, or the failed assertion,
    -- in a world of which an exchange has brought no bytes.
    abbrev pub HasRun : ℕ → ℕ → World → Option (List ℕ × ℕ × World) → Type 0
    HasRun n sent w (some (samples, sent', u)) =
        (length samples ≡ n) × (sent' ≡ sent + fds_of fd n) × SameTable w u
    HasRun n sent w none =
        (v : World) × SameTable w v × (is_some_bytes (xchg k sock bytes fd 0 v).0 ≡ false)

    Exchanged-SameTable :
        (w : World) (x : Option Received × ℕ × World)
        → Exchanged k w x
        → is_some_bytes x.0 ≡ true
        → SameTable w x.2
    Exchanged-SameTable w (none, n, u) h e = absurd (ground arith)
    Exchanged-SameTable w (some r, n, u) h e = h (is_empty-is_some_bytes k r e)

    HasRun-cons :
        (n sent ns : ℕ) (w u : World) (r : Option (List ℕ × ℕ × World))
        → SameTable w u
        → HasRun n (count_fd fd sent) u r
        → HasRun (suc n) sent w (r >>= λ x. some (timed k clock sock bytes fd x ns))
    HasRun-cons n sent ns w u (some (samples, sent', v)) same h =
        (ap suc h.0, h.1 ∙ fds_of-suc fd sent n, λ j. h.2 j ∙ same j)
    HasRun-cons n sent ns w u none same h = (h.0, λ j. h.1 j ∙ same j, h.2)

    HasRun-then_time :
        (n sent : ℕ) (w : World) (rest : World → Option (List ℕ × ℕ × World)) (b : Bool)
        → is_some_bytes (xchg k sock bytes fd 0 w).0 ≡ b
        → ((u : World) → HasRun n (count_fd fd sent) u (rest u))
        → HasRun (suc n) sent w (
            then_time k clock sock bytes fd rest (
              checked_if k clock sock bytes fd b
                (clock (xchg k sock bytes fd 0 w).2 - clock w)
                (xchg k sock bytes fd 0 w).2))
    HasRun-then_time n sent w rest true e h =
        let x = xchg k sock bytes fd 0 w in
        HasRun-cons n sent (clock x.2 - clock w) w x.2 (rest x.2)
          (Exchanged-SameTable w x (xchg-Exchanged k sock bytes fd 0 w) e) (h x.2)
    HasRun-then_time n sent w rest false e h = (w, λ j. refl, e)

    HasRun-time_rung :
        (n sent : ℕ) (w : World) → HasRun n sent w (time_rung k clock sock bytes fd n sent w)
    unfolding time_rung
    HasRun-time_rung zero sent w = (refl, ground arith, λ j. refl)
    HasRun-time_rung (suc n) sent w =
        HasRun-then_time n sent w (time_rung k clock sock bytes fd n (count_fd fd sent))
          (is_some_bytes (xchg k sock bytes fd 0 w).0) refl (HasRun-time_rung n (count_fd fd sent))

    -- A row has a sample for each exchange and, with a descriptor, as many descriptors sent, so that the
    -- assertion on their number holds, and none is left open; or an exchange brings no bytes and the
    -- assertion on that fails.
    pub rung_raw_syscall-HasRun :
        (warmup iters : ℕ) (w : World)
        → HasRun iters 0
            (warm_up k clock sock bytes fd warmup w)
            (rung_raw_syscall k clock sock bytes fd warmup iters w)
    unfolding rung_raw_syscall
    rung_raw_syscall-HasRun warmup iters w =
        HasRun-time_rung iters 0 (warm_up k clock sock bytes fd warmup w)
