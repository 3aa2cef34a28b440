-- ===== src/Examples/Connecting/Laws.antt =====
-- The loop ends, and says why.
use mathlib.Core.Path.{subst}
use strong_ipc.Prelude.{
  ℕ, zero, suc, ◌+◌, ◌*◌, ◌≤◌, ◌<◌, ◌≡◌, refl, Bool-cases, ap, inl, inr, Option, none, some, leb,
  arith,
}
use strong_ipc.Io.{IoError, IoResult, ok, err}
use strong_ipc.Examples.Connecting.{
  Surroundings, ConnectEnd, waits, connected, child_exited, timed_out, after_now, after_wait,
  after_attempt, connect_loop, connect_with_retry,
}

module _ {A : Type 0} (x : Surroundings A) where
  open x use {
    World, time, attempt, try_wait, now, sleep, attempt_later, try_wait_later, now_law, sleep_later,
  }

  -- It waits in an attempt that never comes to an end; a `Ref` comes from an attempt that
  -- succeeded; the child is reported to have exited where `try_wait` said so, after a failed
  -- attempt; and with the deadline past, the error is the last attempt's.
  abbrev pub Why : ℕ → Option (ConnectEnd x) × World → Type 0
  Why deadline (none, w) = ⊥
  Why deadline (some waits, w) = (u : World) × (attempt u ≡ (none, w))
  Why deadline (some (connected r), w) = (u : World) × (attempt u ≡ (some (ok r), w))
  Why deadline (some (child_exited status), w) =
      (u : World) × (v : World) × (e : IoError) × (attempt u ≡ (some (err e), v))
      × (try_wait v ≡ (ok (some status), w))
  Why deadline (some (timed_out e), w) =
      (deadline ≤ time w) × (u : World) × ((attempt u).0 ≡ some (err e))

  -- One round, where `again` is the rest of the loop
  module _ (again : World → Option (ConnectEnd x) × World) (deadline : ℕ) (w : World)
      (rest : (v : World) → time w < deadline → time w + 20 ≤ time v → Why deadline (again v)) where
    after_now-Why :
        (e : IoError) (v : World)
        → (attempt w).0 ≡ some (err e)
        → time w ≤ time v
        → Why deadline (after_now x again deadline e (now v))
    after_now-Why e v a l =
        let (early, late) = now_law v in
        elim (Bool-cases (leb deadline (now v).0)) [
          | inl past ↦ rw past (ground arith, w, a)
          | inr left ↦ rw left (rest _ (ground arith) (omega (arith, sleep_later 20 (now v).1)))
        ]

    waited :
        {r : IoResult (Option ℕ)} (v u : World)
        → time w ≤ time v
        → try_wait v ≡ (r, u)
        → time w ≤ time u
    waited v u l b = let later = subst (λ p. time v ≤ time p.1) b (try_wait_later v) in omega arith

    after_wait-Why :
        (e : IoError) (v : World)
        → attempt w ≡ (some (err e), v)
        → time w ≤ time v
        → (r : IoResult (Option ℕ) × World) → try_wait v ≡ r
        → Why deadline (after_wait x again deadline e r)
    after_wait-Why e v a l (ok (some status), u) b = (w, v, e, a, b)
    after_wait-Why e v a l (ok none, u) b = after_now-Why e u (ap (λ p. p.0) a) (waited v u l b)
    after_wait-Why e v a l (err y, u) b = after_now-Why e u (ap (λ p. p.0) a) (waited v u l b)

    after_attempt-Why :
        (r : Option (IoResult A) × World)
        → attempt w ≡ r
        → Why deadline (after_attempt x again deadline r)
    after_attempt-Why (none, u) a = (w, a)
    after_attempt-Why (some (ok r), u) a = (w, a)
    after_attempt-Why (some (err e), u) a =
        after_wait-Why e u a (subst (λ p. time w ≤ time p.1) a (attempt_later w)) (try_wait u) refl

  connect_loop-Why :
      (rounds deadline : ℕ) (w : World)
      → deadline ≤ time w + 20 * rounds
      → Why deadline (connect_loop x (suc rounds) deadline w)
  unfolding connect_loop
  connect_loop-Why zero deadline w h =
      after_attempt-Why (connect_loop x zero deadline) deadline w (λ v lt l. absurd (omega arith))
        (attempt w) refl
  connect_loop-Why (suc rounds) deadline w h =
      after_attempt-Why (connect_loop x (suc rounds) deadline) deadline w
        (λ v lt l. connect_loop-Why rounds deadline v (omega arith)) (attempt w) refl

  -- `connect_with_retry` starts no more than 251 rounds, whatever the server, the child and the clock do,
  -- and it either waits for ever, which it does only in an attempt that never comes to an end, or ends:
  -- with a `Ref` that an attempt returned; with the exit status that `try_wait` gave after an attempt
  -- failed; or with the error of an attempt, and then five seconds have passed since it was called.
  pub connect_with_retry-Why :
      (rounds : ℕ) (w : World)
      → 250 ≤ rounds
      → Why ((now w).0 + 5_000) (connect_with_retry x (suc rounds) w)
  unfolding connect_with_retry
  connect_with_retry-Why rounds w h =
      connect_loop-Why rounds ((now w).0 + 5_000) (now w).1 (omega (arith, now_law w))
