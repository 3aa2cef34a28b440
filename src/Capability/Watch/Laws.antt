-- ===== src/Capability/Watch/Laws.antt =====
-- A death notification is only ever given for a reason.
use strong_ipc.Prelude.{
  ℕ, zero, suc, ◌<◌, ◌≡◌, ◌⊎◌, inl, inr, refl, ap, sym, ◌∙◌, ◌↔◌, true, false, if◌then◌else◌, some,
  arith,
}
use strong_ipc.Io.{IoResult, ok, err}
use strong_ipc.Wire.Reactive.{PollFlags}
use strong_ipc.Wire.Hangup.{Ready, is_gone, after_event, hangup}
use strong_ipc.Wire.Hangup.Laws.{Ends, IsSpurious, at_report, hangup_lem}
use strong_ipc.Capability.Watch.{is_dead, await_watch, death_notification}

-- The poll found the socket hung up.
abbrev pub HungUp : IoResult PollFlags → Type 0
HungUp (err e) = ⊥
HungUp (ok f) = (f.hup ≡ true) ⊎ (f.error ≡ true) ⊎ (f.nval ≡ true)

-- It did not.
abbrev pub Quiet : IoResult PollFlags → Type 0
Quiet (err e) = Unit {0}
Quiet (ok f) = (f.hup ≡ false) × (f.error ≡ false) × (f.nval ≡ false)

HungUp-is_dead : (p : IoResult PollFlags) → HungUp p → is_dead p ≡ true
unfolding is_dead
HungUp-is_dead (err e) h = absurd h
HungUp-is_dead (ok f) h = ground arith

Quiet-is_dead : (p : IoResult PollFlags) → Quiet p → is_dead p ≡ false
unfolding is_dead
Quiet-is_dead (err e) h = refl
Quiet-is_dead (ok f) h = ground arith

dead_or_not :
    (p : IoResult PollFlags) → (HungUp p × (is_dead p ≡ true)) ⊎ (Quiet p × (is_dead p ≡ false))
unfolding is_dead
dead_or_not (err e) = inr (tt, refl)
dead_or_not (ok f) = ground arith

ready_or_not :
    (r : Ready)
    → ((is_gone r ≡ true) × ((r.read_closed ≡ true) ⊎ (r.error ≡ true)))
      ⊎ ((is_gone r ≡ false) × (r.read_closed ≡ false) × (r.error ≡ false))
ready_or_not r = ground arith

module _ {W : Type 0} (ready : W → IoResult Ready × W) (clear : W → W) where
  -- Within `f` reports one came that is a reason to return, and the state is the one after it.
  abbrev pub Reported : ℕ → W → W → Type 0
  Reported f w u =
      (n : ℕ) × (n < f)
      × Ends ready clear (ready (at_report ready clear n w)).0
      × ((j : ℕ) → j < n → IsSpurious ready clear (ready (at_report ready clear j w)).0)
      × (u ≡ (ready (at_report ready clear n w)).1)

  one_later :
      (f : ℕ) (w u : W)
      → IsSpurious ready clear (ready w).0
      → Reported f (clear (ready w).1) u
      → Reported (suc f) w u
  one_later f w u noise (n, lt, ends, before, e) = (suc n, omega arith, ends, all_before, e)
    where
      all_before :
          (j : ℕ) → j < suc n → IsSpurious ready clear (ready (at_report ready clear j w)).0
      all_before zero h = noise
      all_before (suc j) h = before j (omega arith)

  hangup-Reported : (f : ℕ) (w u : W) → hangup ready clear f w ≡ some u → Reported f w u
  unfolding hangup
  hangup-Reported zero w u e = absurd (ground arith)
  hangup-Reported (suc f) w u e = go (λ v. hangup-Reported f v u) (ready w) refl e
    where
      go :
          (rest : (v : W) → hangup ready clear f v ≡ some u → Reported f v u)
          (r : IoResult Ready × W)
          → ready w ≡ r
          → after_event ready clear (hangup ready clear f) r ≡ some u
          → Reported (suc f) w u
      go rest (err x, v) q h =
          (0, omega arith, rw (ap (λ r. r.0) q) tt, λ j lt. absurd (omega arith), ground arith)
      go rest (ok r, v) q h = elim (ready_or_not r) [
        | inl (gone, why) ↦
            (0, omega arith, rw (ap (λ r. r.0) q) why, λ j lt. absurd (omega arith), ground arith)
        | inr (noise, closed, error) ↦
            one_later f w u (rw (ap (λ r. r.0) q) (closed, error))
              (rest (clear (ready w).1) (ground arith))
      ]

  Reported-hangup : (f : ℕ) (w u : W) → Reported f w u → hangup ready clear f w ≡ some u
  Reported-hangup f w u (n, lt, ends, before, e) =
      (hangup_lem ready clear n f w before).1 lt ends ∙ ap some (sym e)

  -- `death_notification` returns, within so many rounds, exactly in two cases: the poll succeeds
  -- with one of the flags for a hang-up, an error and an invalid descriptor, and nothing is waited
  -- for; or the poll fails or has none of the three, the watch could be built, and within the
  -- rounds the reactor reports a closed read side, an error flag or its own failure, all reports
  -- before that one having neither flag. Where the watch cannot be built and the poll finds
  -- nothing, it never returns.
  pub death_notification-Reported :
      (fuel : ℕ) (polled : IoResult PollFlags) (watch : IoResult Unit) (w u : W)
      → (death_notification ready clear fuel polled watch w ≡ some u)
        ↔ ((HungUp polled × (u ≡ w)) ⊎ (Quiet polled × (watch ≡ ok tt) × Reported fuel w u))
  unfolding death_notification
  death_notification-Reported fuel polled watch w u = (go (dead_or_not polled) watch refl, back)
    where
      go :
          (HungUp polled × (is_dead polled ≡ true)) ⊎ (Quiet polled × (is_dead polled ≡ false))
          → (v : IoResult Unit) → watch ≡ v
          → (if is_dead polled then some w else await_watch ready clear fuel v w) ≡ some u
          → (HungUp polled × (u ≡ w)) ⊎ (Quiet polled × (watch ≡ ok tt) × Reported fuel w u)
      go (inl (why, e)) v q h = inl (why, ground arith)
      go (inr (why, e)) (ok _) q h = inr (why, q, hangup-Reported fuel w u (ground arith))
      go (inr (why, e)) (err x) q h = absurd (ground arith)

      back :
          (HungUp polled × (u ≡ w)) ⊎ (Quiet polled × (watch ≡ ok tt) × Reported fuel w u)
          → (if is_dead polled then some w else await_watch ready clear fuel watch w) ≡ some u
      back (inl (why, q)) = rw (HungUp-is_dead polled why) (ap some (sym q))
      back (inr (why, q, r)) = rw (Quiet-is_dead polled why, q) (Reported-hangup fuel w u r)
