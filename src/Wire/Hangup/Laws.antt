-- ===== src/Wire/Hangup/Laws.antt =====
-- When `hangup` returns.
use strong_ipc.Prelude.{
  ℕ, zero, suc, ◌<◌, ◌≡◌, ◌⊎◌, ◌∙◌, refl, true, false, Option, some, none, arith,
}
use strong_ipc.Io.{IoResult, ok, err}
use strong_ipc.Wire.Hangup.{Ready, is_gone, after_event, hangup}

-- The two flags that count
is_gone_if : (r : Ready) → (r.read_closed ≡ true) ⊎ (r.error ≡ true) → is_gone r ≡ true
is_gone_if r h = ground arith

is_not_gone_if : (r : Ready) → (r.read_closed ≡ false) × (r.error ≡ false) → is_gone r ≡ false
is_not_gone_if r h = ground arith

module _ {W : Type 0} (ready : W → IoResult Ready × W) (clear : W → W) where
  -- What was reported is a reason to return: an error of the reactor, or a peer that is gone.
  abbrev pub Ends : IoResult Ready → Type 0
  Ends (err e) = Unit {0}
  Ends (ok r) = (r.read_closed ≡ true) ⊎ (r.error ≡ true)

  -- It is not: something else made the socket readable.
  abbrev pub IsSpurious : IoResult Ready → Type 0
  IsSpurious (err e) = ⊥
  IsSpurious (ok r) = (r.read_closed ≡ false) × (r.error ≡ false)

  -- The state in which the n-th report is made, when each one before it is cleared
  abbrev pub at_report : ℕ → W → W
  at_report zero w = w
  at_report (suc n) w = at_report n (clear (ready w).1)

  after_event-Ends :
      (again : W → Option W) (r : IoResult Ready × W)
      → Ends r.0
      → after_event ready clear again r ≡ some r.1
  after_event-Ends again (err e, w) h = refl
  after_event-Ends again (ok r, w) h = rw (is_gone_if r h) refl

  after_event-IsSpurious :
      (again : W → Option W) (r : IoResult Ready × W)
      → IsSpurious r.0
      → after_event ready clear again r ≡ again (clear r.1)
  after_event-IsSpurious again (err e, w) h = absurd h
  after_event-IsSpurious again (ok r, w) h = rw (is_not_gone_if r h) refl

  -- If the first n reports are spurious, n rounds do not return; and if the report after them is a
  -- hang-up, an error flag or a failed reactor, any fuel above n lets `hangup` return, at that report.
  pub hangup_lem :
      (n f : ℕ) (w : W)
      → ((j : ℕ) → j < n → IsSpurious (ready (at_report j w)).0)
      → (hangup ready clear n w ≡ none)
        × (n < f
            → Ends (ready (at_report n w)).0
            → hangup ready clear f w ≡ some (ready (at_report n w)).1)
  unfolding hangup
  hangup_lem zero zero w h = (refl, λ lt. absurd (omega arith))
  hangup_lem zero (suc f) w h = (refl, λ lt e. after_event-Ends (hangup ready clear f) (ready w) e)
  hangup_lem (suc n) zero w h = (
    after_event-IsSpurious (hangup ready clear n) (ready w) (h zero (omega arith))
        ∙ (hangup_lem n zero (clear (ready w).1) (λ j lt. h (suc j) (omega arith))).0,
    λ lt. absurd (omega arith),
  )
  hangup_lem (suc n) (suc f) w h =
      let spurious = h zero (omega arith) in
      let rest = hangup_lem n f (clear (ready w).1) (λ j lt. h (suc j) (omega arith)) in
      (
        after_event-IsSpurious (hangup ready clear n) (ready w) spurious ∙ rest.0,
        λ lt e.
            after_event-IsSpurious (hangup ready clear f) (ready w) spurious
            ∙ rest.1 (omega arith) e,
      )
