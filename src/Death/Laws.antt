-- ===== src/Death/Laws.antt =====
-- No wakeup is lost, and nobody returns before the death.
use strong_ipc.Prelude.{ℕ, ◌≡◌, ◌≢◌, ◌⊎◌, ◌↔◌, inl, refl, Bool, true, false, arith}
use strong_ipc.Death.{
  Waiter, fresh, enabled, woken, Notify, Pc, outside, registered, parked, returned, Tombstone,
  armed, declared, Death, init, is_dead, Step, enables, sees_dead, sees_alive, wakes, stores,
  notifies, Reach, start, later,
}

-- What a waiter that stands at `p` may be, given the flag and the tombstone.
abbrev pub Holds : Bool → Tombstone → Pc → Waiter → Type 0
Holds dead t outside w = w ≡ fresh
Holds dead t registered w = (w ≢ fresh) × (w ≡ woken → dead ≡ true)
Holds dead t parked w = (w ≡ enabled × (t ≢ declared)) ⊎ ((w ≡ woken) × (dead ≡ true))
Holds dead t returned w = dead ≡ true

module _ (n : Notify) where
  pub record Inv (s : Death n) : Type 0 where
    pub latch : (s.dead ≡ false) × (s.tombstone ≡ armed) ⊎ (s.dead ≡ true) × (s.tombstone ≢ armed)
    pub holds : (i : ℕ) → Holds s.dead s.tombstone (s.pc i) (n.waiter s.notify i)

  init-Inv : Inv (init n)
  init-Inv = record { latch = inl (refl, refl); holds = n.waiter-new }

  Step-Inv : {s t : Death n} → Step n s t → Inv s → Inv t
  unfolding is_dead
  Step-Inv {s} (enables i e) v = record {
    latch = v.latch;
    holds = λ j. ground (arith, v.holds j, v.holds i, n.waiter-enable i s.notify j);
  }
  Step-Inv {s} (sees_dead i e d) v = record {
    latch = v.latch;
    holds = λ j. ground (arith, v.holds j, v.holds i);
  }
  Step-Inv {s} (sees_alive i e d) v = record {
    latch = v.latch;
    holds = λ j. ground (arith, v.holds j, v.holds i, v.latch);
  }
  Step-Inv {s} (wakes i e w) v = record {
    latch = v.latch;
    holds = λ j. ground (arith, v.holds j, v.holds i);
  }
  Step-Inv {s} (stores e) v = record {
    latch = ground arith;
    holds = λ j. ground (arith, v.holds j);
  }
  Step-Inv {s} (notifies e) v = record {
    latch = ground (arith, v.latch);
    holds = λ j. ground (arith, v.holds j, v.latch, n.waiter-notify_waiters s.notify j);
  }

  Reach-Inv : {s : Death n} → Reach n s → Inv s
  Reach-Inv start = init-Inv
  Reach-Inv (later r st) = Step-Inv st (Reach-Inv r)

  -- In every reachable state after the tombstone's drop is complete, each waiter that is parked has
  -- been woken: no order of its registration, its check and the declaration loses the wakeup.
  pub no_lost_wakeup :
      {s : Death n}
      → Reach n s
      → s.tombstone ≡ declared
      → (i : ℕ) → s.pc i ≡ parked
      → n.waiter s.notify i ≡ woken
  no_lost_wakeup r d i p = ground (arith, (Reach-Inv r).holds i)

  -- A wait returns only once the flag is set; the flag is set exactly from the drop of the tombstone
  -- on, and no step clears it.
  pub death_latch :
      {s t : Death n}
      → Reach n s
      → Step n s t
      → ((i : ℕ) → s.pc i ≡ returned → is_dead n s ≡ true)
        × ((is_dead n s ≡ true) ↔ (s.tombstone ≢ armed))
        × (is_dead n s ≡ true → is_dead n t ≡ true)
  unfolding is_dead
  death_latch {s} {t} r st = (
    λ i p. ground (arith, (Reach-Inv r).holds i),
    (λ d. ground (arith, (Reach-Inv r).latch), λ d. ground (arith, (Reach-Inv r).latch)),
    λ d. keeps st d,
  )
    where
      keeps : {u w : Death n} → Step n u w → u.dead ≡ true → w.dead ≡ true
      keeps (stores e) d = refl
      keeps (enables i e) d = d
      keeps (sees_dead i e f) d = d
      keeps (sees_alive i e f) d = d
      keeps (wakes i e f) d = d
      keeps (notifies e) d = d
