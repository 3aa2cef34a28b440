-- ===== src/Death/Tests.antt =====
-- A waiter that registers and parks before the tombstone goes.
use strong_ipc.Prelude.{◌≡◌, refl, ℕ_discrete}
use strong_ipc.Death.{
  Notify, waiters, woken, Death, is_dead, enables, sees_alive, stores, notifies, Reach, start,
  later,
}
use strong_ipc.Death.Laws.{no_lost_wakeup}

abbrev n : Notify
n = waiters

record Run : Type 0 where
  last : Death n
  reach : Reach n last

buried : Run
unfolding is_dead ℕ_discrete
buried = record {
  last = _;
  reach =
      later (later (later (later start (enables 0 refl)) (sees_alive 0 refl refl)) (stores refl))
        (notifies refl);
}

no_lost_wakeup_example : n.waiter buried.last.notify 0 ≡ woken
unfolding buried
no_lost_wakeup_example = no_lost_wakeup n buried.reach refl 0 refl
