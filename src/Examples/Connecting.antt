-- ===== src/Examples/Connecting.antt =====
-- `connect_with_retry` of examples/timeline.rs, bench.rs and paced.rs, which have the same text: the client
-- tries until its child listens, has exited, or five seconds are over. Times are in milliseconds.
pub mod Laws
mod Tests
use strong_ipc.Prelude.{ℕ, zero, suc, ◌+◌, ◌≤◌, ◌≡◌, Option, none, some, leb, if◌then◌else◌}
use strong_ipc.Io.{IoError, IoResult, ok, err}

-- The process and its surroundings. `attempt` is `Ref::connect`, with `none` where it never comes
-- to an end, since the server accepts and sends nothing; `try_wait` is
-- `Child::try_wait`, `some` for an exit status; `now` reads the clock, which never runs backwards, and
-- `sleep` lets at least its duration pass.
pub record Surroundings (A : Type 0) : Type 1 where
  pub World : Type 0
  pub time : World → ℕ
  pub attempt : World → Option (IoResult A) × World
  pub try_wait : World → IoResult (Option ℕ) × World
  pub now : World → ℕ × World
  pub sleep : ℕ → World → World
  pub attempt_later : (w : World) → time w ≤ time (attempt w).1
  pub try_wait_later : (w : World) → time w ≤ time (try_wait w).1
  pub now_law : (w : World) → (time w ≤ (now w).0) × ((now w).0 ≤ time (now w).1)
  pub sleep_later : (ms : ℕ) (w : World) → time w + ms ≤ time (sleep ms w)

module _ {A : Type 0} (x : Surroundings A) where
  open x use {World, attempt, try_wait, now, sleep}

  -- The first is no end: an attempt waits for ever. The last two are panics.
  pub data ConnectEnd : Type 0 where
    waits : ConnectEnd
    connected : A → ConnectEnd
    child_exited : ℕ → ConnectEnd
    timed_out : IoError → ConnectEnd

  abbrev pub after_now :
      (World → Option ConnectEnd × World) → ℕ → IoError → ℕ × World → Option ConnectEnd × World
  after_now again deadline e (t, w) =
      let rest = again (sleep 20 w) in if leb deadline t then (some (timed_out e), w) else rest

  abbrev pub after_wait :
      (World → Option ConnectEnd × World)
      → ℕ
      → IoError
      → IoResult (Option ℕ) × World
      → Option ConnectEnd × World
  after_wait again deadline e (ok (some status), w) = (some (child_exited status), w)
  after_wait again deadline e (ok none, w) = after_now again deadline e (now w)
  after_wait again deadline e (err x, w) = after_now again deadline e (now w)

  abbrev pub after_attempt :
      (World → Option ConnectEnd × World)
      → ℕ
      → Option (IoResult A) × World
      → Option ConnectEnd × World
  after_attempt again deadline (none, w) = (some waits, w)
  after_attempt again deadline (some (ok r), w) = (some (connected r), w)
  after_attempt again deadline (some (err e), w) = after_wait again deadline e (try_wait w)

  -- The loop; `none` where the fuel does not suffice.
  pub connect_loop : ℕ → ℕ → World → Option ConnectEnd × World
  connect_loop zero deadline w = (none, w)
  connect_loop (suc fuel) deadline w =
      after_attempt (connect_loop fuel deadline) deadline (attempt w)

  -- `connect_with_retry`
  unfoldable pub connect_with_retry : ℕ → World → Option ConnectEnd × World
  unfolding connect_loop
  connect_with_retry fuel w = let (t, u) = now w in connect_loop fuel (t + 5_000) u
