-- ===== src/Examples/Between/Tests.antt =====
-- Quiet and busy rounds, and a tail that comes or does not.
use strong_ipc.Prelude.{ℕ, ◌≡◌, refl, true, false, none, some, [], ◌∷◌}
use strong_ipc.Examples.Watch.{FdWatch, Look, went}
use strong_ipc.Examples.Between.{Mail, quiesce, drain_tail}

abbrev mail_of : ℕ → ℕ → Mail
mail_of received inbox = record { received = received; inbox = inbox }

quiesce-busy : quiesce (2 ∷ 0 ∷ 1 ∷ []) (mail_of 5 1) ≡ some (mail_of 7 0)
unfolding quiesce
quiesce-busy = refl

quiesce-waiting : quiesce (2 ∷ 1 ∷ []) (mail_of 5 1) ≡ none
unfolding quiesce
quiesce-waiting = refl

abbrev idle_watch : FdWatch
idle_watch = record {
  threshold = 800;
  peak_self = 4;
  peak_child = 4;
  tripped = false;
  timeline = none;
}

abbrev a_look : Look
a_look = record { mine = 4; theirs = 4; free = true; now = 0; client_rss_kb = 5; server_rss_kb = 6 }

drain_tail-come :
    drain_tail (record { over = false; came = 2; look = a_look } ∷ []) 9 7 idle_watch
    ≡ went (false, 9, idle_watch)
unfolding drain_tail
drain_tail-come = refl

drain_tail-over :
    drain_tail (record { over = true; came = 0; look = a_look } ∷ []) 9 7 idle_watch
    ≡ went (true, 7, idle_watch)
unfolding drain_tail
drain_tail-over = refl
