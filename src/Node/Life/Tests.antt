-- ===== src/Node/Life/Tests.antt =====
-- A node that is given up by `to_service`, and one whose last capability is closed.
use strong_ipc.Prelude.{◌≤◌, ◌⊎◌, ◌≡◌, refl, true, false, inl, arith}
use strong_ipc.Node.Life.{
  Winds, Wind, then, here, returns, hangs_up, arrives, wind, polls, takes, release, Life, is_dead,
  to_service, give_up, share, Reach, start, later,
}
use strong_ipc.Node.Life.Laws.{IsUp, stays-IsUp, IsDown, steps, goes-IsDown}

record Run : Type 0 where
  last : Life
  reach : Reach last

service : Run
unfolding to_service
service = record { last = _; reach = later (later start (share (omega arith))) (give_up refl) }

stays-IsUp_example :
    IsUp service.last.task × (is_dead service.last ≡ false) × (service.last.has_entry ≡ true)
unfolding service
stays-IsUp_example = stays-IsUp service.reach (λ e. ground arith) refl (inl (omega arith))

-- A message has come and is in the handler's hand when the last capability is closed.
gone : Run
gone = record {
  last = _;
  reach =
      later
        (later (later (later start (arrives (omega arith))) (wind (polls refl)))
          (wind (takes refl (omega arith))))
        (release (omega arith));
}

-- The handler returns, and the loop finds the hang-up.
record Way : Type 0 where
  last : Life
  winds : Winds gone.last last

way : Way
unfolding gone
way = record { last = _; winds = then (returns refl) (then (hangs_up refl refl refl) here) }

goes-IsDown_example : (steps way.winds ≤ 4) × (IsDown way.last ⊎ ((u : Life) × Wind way.last u))
unfolding gone way
goes-IsDown_example = goes-IsDown gone.reach (inl refl) way.winds
