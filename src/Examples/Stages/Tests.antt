-- ===== src/Examples/Stages/Tests.antt =====
-- Message 500 is answered late: its reply comes together with that to message 501.
use strong_ipc.Prelude.{◌≡◌, refl, true, [], ◌∷◌, arith}
use strong_ipc.Examples.Stages.{Trip, Stages, start, burst_loop}
use strong_ipc.Examples.Stages.Sync.{Readings, Rows, SameRows, answered, holding, burst_loop-Sync}

abbrev unanswered : Trip
unanswered = record { t0 = 10; accepted = true; t0b = 11; arrivals = [] }

abbrev both : Trip
both = record {
  t0 = 90;
  accepted = true;
  t0b = 91;
  arrivals = (500, 60, 61, 95) ∷ (501, 93, 94, 96) ∷ [];
}

abbrev next : Readings
next = (100, 101, 103, 104, 108)

abbrev desynced : Stages
desynced = record (start 500) { lost = 2; seq = 502; queue = (501, 93, 94, 96) ∷ [] }

late : burst_loop (unanswered ∷ both ∷ []) (start 500) ≡ desynced
unfolding burst_loop
late = refl

burst_loop-Sync_example :
    let fresh = burst_loop (answered 502 (next ∷ next ∷ [])) (holding [] desynced) in
    let stale = burst_loop (answered 502 (next ∷ next ∷ [])) desynced in
    Rows (next ∷ next ∷ []) desynced fresh
    × (fresh.lost ≡ 2)
    × SameRows desynced stale
    × (stale.lost ≡ 4)
burst_loop-Sync_example =
    burst_loop-Sync (next ∷ next ∷ []) (501, 93, 94, 96) desynced (refl, (refl, tt)) (omega arith)
