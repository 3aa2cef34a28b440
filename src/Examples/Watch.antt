-- ===== src/Examples/Watch.antt =====
-- The descriptor watchdog of examples/bench.rs, `FdWatch`, and the phases that it watches: `Client::send`
-- and the timed loops of `latency` and `throughput`. Times are in nanoseconds. What the kernel, the clock
-- and the server do is given, for each turn of a loop, as data.
pub mod Laws
pub mod Counts
mod Tests
use strong_ipc.Prelude.{
  ℕ, zero, suc, ◌+◌, ◌*◌, ◌%◌, ◌^◌, Bool, true, false, not, ◌&&◌, ◌||◌, Option, none, some, List,
  [], ◌∷◌, ◌++◌, ltb, leb, ◌==◌, if◌then◌else◌,
}
use Prim.Native.Nat.{max, min}
use strong_ipc.Examples.Ordering.{u64}

-- A row of the log: seconds since the start (here nanoseconds), both processes' memory, the server's
-- descriptors
pub record Row : Type 0 where
  pub t : ℕ
  pub client_rss : ℕ
  pub server_rss : ℕ
  pub server_fds : ℕ

pub record FdWatch : Type 0 where
  pub threshold : ℕ
  pub peak_self : ℕ
  pub peak_child : ℕ
  pub tripped : Bool
  pub timeline : Option (List Row)

-- What one sample reads: both processes' open descriptors, whether the log's lock is free, the time
-- since the log's start, and both processes' memory
pub record Look : Type 0 where
  pub mine : ℕ
  pub theirs : ℕ
  pub free : Bool
  pub now : ℕ
  pub client_rss_kb : ℕ
  pub server_rss_kb : ℕ

-- `abort` ends the process: it reports the two numbers.
pub data Run (A : Type 0) : Type 0 where
  went : A → Run A
  aborted : ℕ → ℕ → Run A

abbrev pub and_went : {A B : Type 0} → Run A → (A → Run B) → Run B
and_went (went a) f = f a
and_went (aborted m n) f = aborted m n

abbrev pub second : ℕ
second = 1000000000

-- `log.last().is_none_or(…)`, and the push
pub is_due : ℕ → List Row → Bool
is_due t [] = true
is_due t (r ∷ []) = leb (r.t + second) t
is_due t (r ∷ q ∷ log) = is_due t (q ∷ log)

abbrev pub row_of : Look → Row
row_of look = record {
  t = look.now;
  client_rss = look.client_rss_kb;
  server_rss = look.server_rss_kb;
  server_fds = look.theirs;
}

abbrev pub log_row : Look → List Row → List Row
log_row look log = if is_due look.now log then log ++ (row_of look ∷ []) else log

abbrev pub log_into : Look → Option (List Row) → Option (List Row)
log_into look none = none
log_into look (some log) = some (if look.free then log_row look log else log)

abbrev pub is_over : FdWatch → Look → Bool
is_over w look = leb w.threshold look.mine || leb w.threshold look.theirs

abbrev pub observe : Look → FdWatch → FdWatch
observe look w = record w {
  peak_self = max w.peak_self look.mine;
  peak_child = max w.peak_child look.theirs;
  timeline = log_into look w.timeline;
}

-- `tripped.swap(true)`, asked only if the sample is over
abbrev pub trip : Look → FdWatch → Run FdWatch
trip look w = if w.tripped then went w else aborted look.mine look.theirs

unfoldable pub sample_fds : Look → FdWatch → Run FdWatch
unfolding is_due
sample_fds look w = if is_over w look then trip look (observe look w) else went (observe look w)

abbrev pub reset_peaks : FdWatch → FdWatch
reset_peaks w = record w { peak_self = 0; peak_child = 0 }

-- What a send meets: `try_send`'s result, and for a full queue the sample and what `send` then says
pub data Tried : Type 0 where
  taken : Tried
  refused : Tried
  full : Look → Bool → Tried

-- `Client::send`: whether the message is gone, and the count of full queues
abbrev pub sent_after : Bool → ℕ → FdWatch → Run (Bool × ℕ × FdWatch)
sent_after b n w = went (b, n, w)

unfoldable pub client_send : Tried → ℕ → FdWatch → Run (Bool × ℕ × FdWatch)
unfolding sample_fds
client_send taken n w = sent_after true n w
client_send refused n w = sent_after false n w
client_send (full look b) n w = and_went (sample_fds look w) (sent_after b (u64 (n + 1)))

-- `last_sample.elapsed() > FD_SAMPLE_INTERVAL`, and the sample that is then due
abbrev pub sample_if : Option Look → FdWatch → Run FdWatch
sample_if none w = went w
sample_if (some look) w = sample_fds look w

-- One turn of `latency`: the send, the reply's time, and the sample if one is due
pub record Ping : Type 0 where
  pub tried : Tried
  pub elapsed : ℕ
  pub look : Option Look

-- A loop's end, by `break` or because its turns are over, with what it has gathered
abbrev pub Timed : Type 0
Timed = List ℕ × FdWatch

abbrev pub push_sample : ℕ → Run Timed → Run Timed
push_sample ns r = and_went r (λ s. went (ns ∷ s.0, s.1))

abbrev pub after_ping : Ping → (FdWatch → Run Timed) → Bool × ℕ × FdWatch → Run Timed
after_ping ping k (true, n, w) = push_sample ping.elapsed (and_went (sample_if ping.look w) k)
after_ping ping k (false, n, w) = went ([], w)

pub time_all : List Ping → FdWatch → Run Timed
unfolding client_send
time_all [] w = went ([], w)
time_all (ping ∷ pings) w = and_went (client_send ping.tried 0 w) (after_ping ping (time_all pings))

-- One turn of `throughput`: the send, whether the deadline is past, and the sample if one is due
pub record Push : Type 0 where
  pub tried : Tried
  pub past : Bool
  pub look : Option Look

-- `sent`, `retries` and the watch
pub record Flow : Type 0 where
  pub sent : ℕ
  pub retries : ℕ
  pub watch : FdWatch

-- Whether the loop is left, and with what: it is left by `break` only.
abbrev pub Pushed : Type 0
Pushed = Bool × Flow

abbrev pub watched : Option Look → Flow → Run Flow
watched look f = and_went (sample_if look f.watch) (λ w. went (record f { watch = w }))

-- Every 64th message the clock is read. The replies that have come are taken out unread, which is left out.
abbrev pub look_up : Push → Flow → Run Pushed
look_up push f =
    if f.sent % 64 == 0
    then (if push.past
        then went (true, f)
        else and_went (watched push.look f) (λ g. went (false, g)))
    else went (false, f)

abbrev pub after_send : Push → Flow → Bool × ℕ × FdWatch → Run Pushed
after_send push f (gone, retries, watch) =
    if gone
    then look_up push (record { sent = u64 (f.sent + 1); retries = retries; watch = watch })
    else went (true, record f { retries = retries; watch = watch })

unfoldable pub push_one : Push → Flow → Run Pushed
unfolding client_send
push_one push f = and_went (client_send push.tried f.retries f.watch) (after_send push f)

abbrev pub unless_left : (Flow → Run Pushed) → Pushed → Run Pushed
unless_left k (true, f) = went (true, f)
unless_left k (false, f) = k f

pub push_all : List Push → Flow → Run Pushed
unfolding push_one
push_all [] f = went (false, f)
push_all (push ∷ pushes) f = and_went (push_one push f) (unless_left (push_all pushes))
