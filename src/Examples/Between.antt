-- ===== src/Examples/Between.antt =====
-- What examples/bench.rs does between its phases: the limit on descriptors, `Client::quiesce`, and the end
-- of `throughput`, which waits for the tail.
pub mod Laws
mod Tests
use strong_ipc.Prelude.{
  ℕ, zero, suc, ◌+◌, Bool, true, false, ◌&&◌, Option, none, some, List, [], ◌∷◌, ltb, ◌==◌,
  if◌then◌else◌,
}
use Prim.Native.Nat.{min}
use strong_ipc.Wire.Limits.{Rlimit, Resource, as_count, as_rlim}
use strong_ipc.Examples.Ordering.{u64}
use strong_ipc.Examples.Watch.{FdWatch, Look, Run, went, aborted, and_went, sample_fds}

module _ (k : Resource) where
  open k use {Process, getrlimit, setrlimit}

  unfoldable pub nofile_limit : Process → ℕ
  nofile_limit p = as_count (getrlimit p).current

  -- The result of `setrlimit` is not looked at.
  unfoldable pub set_nofile_limit : ℕ → Process → Process
  set_nofile_limit soft p =
      let lim = getrlimit p in
      (setrlimit
        (record { current = as_rlim (min soft (as_count lim.maximum)); maximum = lim.maximum }) p).1

-- The client's mail: how many replies its handler has counted, and how many are still in the channel
pub record Mail : Type 0 where
  pub received : ℕ
  pub inbox : ℕ

-- The replies that come while the client waits, each counted and put into the channel
abbrev pub arrive : ℕ → Mail → Mail
arrive n m = record { received = u64 (m.received + n); inbox = m.inbox + n }

-- `while self.rx.try_recv().is_ok() {}`
abbrev pub empty_inbox : Mail → Mail
empty_inbox m = record m { inbox = 0 }

-- One round: `recv` times out if nothing was there and nothing has come.
abbrev pub is_quiet : Mail → Mail → Bool
is_quiet before after = after.inbox == 0 && after.received == before.received

-- `Client::quiesce`, with the number of the replies that come in each round; none: it has not returned yet.
pub quiesce : List ℕ → Mail → Option Mail
quiesce [] m = none
quiesce (n ∷ rounds) m =
    let rest = quiesce rounds (empty_inbox (arrive n m)) in
    if is_quiet m (arrive n m) then some (empty_inbox (arrive n m)) else rest

-- One round of the wait for the tail: whether the two seconds are over, what comes, and the sample
pub record Late : Type 0 where
  pub over : Bool
  pub came : ℕ
  pub look : Look

-- The wait for the tail: whether it has ended, and the replies counted
abbrev pub sampled_then :
    Look → FdWatch → (FdWatch → Run (Bool × ℕ × FdWatch)) → Run (Bool × ℕ × FdWatch)
sampled_then look w f = and_went (sample_fds look w) f

pub drain_tail : List Late → ℕ → ℕ → FdWatch → Run (Bool × ℕ × FdWatch)
unfolding sample_fds
drain_tail [] sent received w = went (false, received, w)
drain_tail (late ∷ lates) sent received w =
    let rest = sampled_then late.look w (drain_tail lates sent (u64 (received + late.came))) in
    if ltb received sent
    then (if late.over then went (true, received, w) else rest)
    else went (true, received, w)
