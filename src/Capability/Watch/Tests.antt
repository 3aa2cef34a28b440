-- ===== src/Capability/Watch/Tests.antt =====
-- A peer that talks back once and then goes.
use strong_ipc.Prelude.{ℕ, zero, suc, ◌≡◌, ◌⊎◌, ◌↔◌, some, true, false}
use strong_ipc.Io.{IoResult, ok}
use strong_ipc.Wire.Reactive.{PollFlags}
use strong_ipc.Wire.Hangup.{Ready}
use strong_ipc.Capability.Watch.{death_notification}
use strong_ipc.Capability.Watch.Laws.{HungUp, Quiet, Reported, death_notification-Reported}

abbrev chatter : ℕ → IoResult Ready × ℕ
chatter zero = (ok (record { read_closed = true; error = false }), zero)
chatter (suc w) = (ok (record { read_closed = false; error = false }), w)

abbrev quiet : IoResult PollFlags
quiet = ok (record { hup = false; error = false; nval = false })

death_notification-Reported_example :
    (death_notification chatter (λ w. w) 3 quiet (ok tt) 1 ≡ some 0) ↔ (
      (HungUp quiet × (◌≡◌ {A = ℕ} 0 1))
      ⊎ (Quiet quiet × (ok tt ≡ ok tt) × Reported chatter (λ w. w) 3 1 0))
death_notification-Reported_example =
    death_notification-Reported chatter (λ w. w) 3 quiet (ok tt) 1 0
