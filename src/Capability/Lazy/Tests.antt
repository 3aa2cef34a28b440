-- ===== src/Capability/Lazy/Tests.antt =====
-- Callers 0 and 1 both find nothing and build; caller 1 sets first, and caller 0 drops its own.
use strong_ipc.Prelude.{ℕ, ◌<◌, ◌≡◌, ◌≢◌, refl, false, none, ℕ_discrete}
use strong_ipc.Capability.Lazy.{
  Lazy, got, set_tried, misses, builds, sets, loses, reads, Reach, start, later,
}
use strong_ipc.Capability.Lazy.Laws.{Placed, shared_by_all}

record Run : Type 0 where
  last : Lazy
  reach : Reach last

raced : Run
unfolding ℕ_discrete
raced = record {
  last = _;
  reach =
      later
        (later
          (later
            (later
              (later (later (later start (misses 0 refl refl)) (misses 1 refl refl))
                (builds 0 refl))
              (builds 1 refl))
            (sets 1 1 refl refl))
          (loses 0 0 1 refl refl))
        (reads 0 1 refl refl);
}

shared_by_all_example :
    ((i j a b : ℕ)
      → raced.last.pc i ≡ got a
      → raced.last.pc j ≡ got b
      → (a ≡ b) × (raced.last.dropped a ≡ false))
    × ((i : ℕ) → raced.last.pc i ≡ set_tried → raced.last.cell ≢ none)
    × ((b : ℕ) → b < raced.last.built → Placed raced.last b)
shared_by_all_example = shared_by_all raced.reach
