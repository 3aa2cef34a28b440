-- ===== src/Examples/Watch/Tests.antt =====
-- A watched run, and a short `throughput`.
use strong_ipc.Prelude.{ℕ, ◌≡◌, refl, true, false, none, some, List, [], ◌∷◌}
use strong_ipc.Examples.Watch.{
  row_of, FdWatch, Look, went, aborted, reset_peaks, sample_fds, taken, refused, full, Push, Flow,
  push_all,
}
use strong_ipc.Examples.Watch.Laws.{Watched, watch_all, watch_all-Watched}

abbrev look_of : ℕ → ℕ → ℕ → Look
look_of t mine theirs = record {
  mine = mine;
  theirs = theirs;
  free = true;
  now = t;
  client_rss_kb = 5;
  server_rss_kb = 6;
}

abbrev fresh_watch : FdWatch
fresh_watch = record {
  threshold = 800;
  peak_self = 0;
  peak_child = 0;
  tripped = false;
  timeline = some [];
}

abbrev some_looks : List Look
some_looks =
    look_of 0 10 20
    ∷ look_of 900000000 12 19
    ∷ look_of 1000000000 11 18
    ∷ look_of 1200000000 30 800
    ∷ look_of 1300000000 1 1
    ∷ []

watch_all-Watched_example : Watched fresh_watch some_looks (watch_all some_looks fresh_watch)
watch_all-Watched_example = watch_all-Watched some_looks fresh_watch refl tt

watch_all-stopped : watch_all some_looks fresh_watch ≡ aborted 30 800
unfolding watch_all sample_fds
watch_all-stopped = refl

abbrev some_pushes : List Push
some_pushes =
    record { tried = taken; past = false; look = none }
    ∷ record { tried = full (look_of 0 10 20) true; past = false; look = none }
    ∷ record { tried = refused; past = false; look = none }
    ∷ record { tried = taken; past = false; look = none }
    ∷ []

abbrev flow_of : ℕ → ℕ → FdWatch → Flow
flow_of sent retries watch = record { sent = sent; retries = retries; watch = watch }

push_all-counted :
    push_all some_pushes (flow_of 0 0 fresh_watch)
    ≡ went (
      true,
      flow_of 2 1 (record fresh_watch {
        peak_self = 10;
        peak_child = 20;
        timeline = some (row_of (look_of 0 10 20) ∷ []);
      }),
    )
unfolding push_all
push_all-counted = refl

-- The 64th message, behind the deadline
push_all-left :
    push_all (record { tried = taken; past = true; look = none } ∷ []) (flow_of 63 0 fresh_watch)
    ≡ went (true, flow_of 64 0 fresh_watch)
unfolding push_all
push_all-left = refl

reset_peaks-zero : reset_peaks (record fresh_watch { peak_self = 9 }) ≡ fresh_watch
reset_peaks-zero = refl
