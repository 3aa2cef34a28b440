-- ===== src/Examples/Connecting/Tests.antt =====
-- A server that is bound half a second after the child starts.
use strong_ipc.Prelude.{ℕ, ◌+◌, none, some, arith, ltb, if◌then◌else◌}
use strong_ipc.Io.{from_kind, other, ok, err}
use strong_ipc.Examples.Connecting.{Surroundings, connect_with_retry}
use strong_ipc.Examples.Connecting.Laws.{Why, connect_with_retry-Why}

-- The world is the clock.
abbrev late : Surroundings ℕ
late = record {
  World = ℕ;
  time = λ w. w;
  attempt = λ w. (some (if ltb w 500 then err (from_kind (other 111)) else ok 7), w + 1);
  try_wait = λ w. (ok none, w);
  now = λ w. (w, w);
  sleep = λ ms w. w + ms;
  attempt_later = λ w. omega arith;
  try_wait_later = λ w. omega arith;
  now_law = λ w. (omega arith, omega arith);
  sleep_later = λ ms w. omega arith;
}

connect_with_retry-Why_example : Why late 5_000 (connect_with_retry late 251 0)
connect_with_retry-Why_example = connect_with_retry-Why late 250 0 (omega arith)
