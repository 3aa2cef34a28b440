-- ===== src/Examples/Frames.antt =====
-- The client's frame loop of examples/paced.rs. A time is in nanoseconds. Over its raw socket and over
-- `Ref`s it is the same but for what sends and receives.
pub mod Laws
pub mod Match
mod Tests
use strong_ipc.Prelude.{
  ℕ, suc, ◌+◌, ◌-◌, Bool, Option, none, some, List, [], ◌∷◌, ◌++◌, ltb, if◌then◌else◌,
}
use strong_ipc.Prelude.Family.{put}

-- What `recv_reply` returns: a number and the time of its reply, `none` after the timeout.
abbrev pub Reply : Type 0
Reply = Option (ℕ × ℕ)

-- A send: when it begins, and whether it returns `Ok`.
abbrev pub Posted : Type 0
Posted = ℕ × Bool

-- The two shapes of a frame, with what each of its sends and receives gives.
pub data Round : Type 0 where
  sequential : List (Posted × Reply) → Round
  pipelined : List Posted → List Reply → Round

pub record Frames : Type 0 where
  pub seq : ℕ
  pub sent_at : ℕ → Option ℕ
  pub msg_ns : List ℕ
  pub burst_ns : List ℕ
  pub wake_ns : List ℕ
  pub late_frames : ℕ
  pub lost : ℕ

-- After the warmup of `n` messages
abbrev pub start : ℕ → Frames
start n = record {
  seq = n;
  sent_at = λ _. none;
  msg_ns = [];
  burst_ns = [];
  wake_ns = [];
  late_frames = 0;
  lost = 0;
}

abbrev pub lose : Frames → Frames
lose s = record s { lost = suc s.lost }

abbrev pub next_seq : Frames → Frames
next_seq s = record s { seq = suc s.seq }

-- A round trip's sample; with it goes `done`. `duration_since` stops at 0.
abbrev pub sample : ℕ → ℕ → ℕ × Frames → ℕ × Frames
sample t0 at (done, s) = (suc done, record s { msg_ns = s.msg_ns ++ ((at - t0) ∷ []) })

abbrev pub own_reply : ℕ → Reply → ℕ × Frames → ℕ × Frames
own_reply t0 none (done, s) = (done, lose s)
own_reply t0 (some (_, at)) x = sample t0 at x

pub run_sequential : List (Posted × Reply) → ℕ × Frames → ℕ × Frames
run_sequential [] x = x
run_sequential (((t0, ok), r) ∷ l) (done, s) =
    let rest = run_sequential l (own_reply t0 r (done, next_seq s)) in
    if ok then rest else (done, s)

pub send_all : List Posted → Frames → Frames
send_all [] s = s
send_all ((t0, ok) ∷ l) s =
    let inserted = record s { sent_at = put s.sent_at s.seq (some t0) } in
    let rest = send_all l (next_seq inserted) in if ok then rest else inserted

abbrev pub credit : ℕ → ℕ → Option ℕ → ℕ × Frames → ℕ × Frames
credit got at none x = x
credit got at (some t0) (done, s) =
    sample t0 at (done, record s { sent_at = put s.sent_at got none })

abbrev pub match_reply : Reply → ℕ × Frames → ℕ × Frames
match_reply none (done, s) = (done, lose s)
match_reply (some (got, at)) (done, s) = credit got at (s.sent_at got) (done, s)

pub receive_all : List Reply → ℕ × Frames → ℕ × Frames
receive_all [] x = x
receive_all (r ∷ l) x = receive_all l (match_reply r x)

abbrev pub run_round : Round → ℕ × Frames → ℕ × Frames
run_round (sequential l) x = run_sequential l x
run_round (pipelined l rs) (done, s) = receive_all rs (done, send_all l s)

-- The end of a frame that took `frame`.
abbrev pub end_frame : ℕ → ℕ → ℕ → ℕ × Frames → Frames
end_frame burst period frame (done, s) = record s {
  burst_ns = s.burst_ns ++ (frame ∷ []);
  late_frames = if ltb period frame then suc s.late_frames else s.late_frames;
  lost = if ltb done burst then s.lost + (burst - done) else s.lost;
}

-- One tick: the client was due at `deadline` and ran at `woke`.
unfoldable pub tick : ℕ → ℕ → ℕ → ℕ → Round → ℕ → Frames → Frames
unfolding run_sequential send_all receive_all
tick burst period deadline woke round frame s =
    end_frame burst period frame
      (run_round round (0, record s { wake_ns = s.wake_ns ++ ((woke - deadline) ∷ []) }))
