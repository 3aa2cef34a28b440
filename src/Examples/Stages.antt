-- ===== src/Examples/Stages.antt =====
-- The client's loop of examples/timeline.rs, which has one message in flight at a time and splits its round
-- trip into four stages. A time is in nanoseconds. A timeout is where no reply comes.
pub mod Laws
pub mod Sync
mod Tests
use strong_ipc.Prelude.{
  ℕ, suc, ◌-◌, Bool, ◌&&◌, Option, none, some, List, [], ◌∷◌, ◌++◌, leb, ◌==◌, if◌then◌else◌,
}

-- What `ReplyHandler` puts into the channel: the number, and when the server got it, when it answered and
-- when the answer came.
abbrev pub Stamps : Type 0
Stamps = ℕ × ℕ × ℕ × ℕ

-- What one turn of the loop meets: the clock before and after the send, whether `send` returned `Ok`, and
-- the replies that came since the receive before, until this one ended.
pub record Trip : Type 0 where
  pub t0 : ℕ
  pub accepted : Bool
  pub t0b : ℕ
  pub arrivals : List Stamps

pub record Stages : Type 0 where
  pub a : List ℕ
  pub b : List ℕ
  pub c : List ℕ
  pub d : List ℕ
  pub total : List ℕ
  pub seqs : List ℕ
  pub lost : ℕ
  pub seq : ℕ
  pub queue : List Stamps  -- the replies in the channel of `rx`

-- After the warmup of `n` messages, which ends with an empty channel
abbrev pub start : ℕ → Stages
start n = record {
  a = [];
  b = [];
  c = [];
  d = [];
  total = [];
  seqs = [];
  lost = 0;
  seq = n;
  queue = [];
}

abbrev pub lose : Stages → Stages
lose s = record s { lost = suc s.lost }

abbrev pub in_order : ℕ → ℕ → ℕ → ℕ → ℕ → Bool
in_order t0 t0b t1 t2 t3 = leb t0 t0b && (leb t0b t1 && (leb t1 t2 && leb t2 t3))

abbrev pub record_row : ℕ → ℕ → Stamps → Stages → Stages
record_row t0 t0b (got, t1, t2, t3) s =
    if in_order t0 t0b t1 t2 t3
    then record s {
      a = s.a ++ ((t0b - t0) ∷ []);
      b = s.b ++ ((t1 - t0b) ∷ []);
      c = s.c ++ ((t2 - t1) ∷ []);
      d = s.d ++ ((t3 - t2) ∷ []);
      total = s.total ++ ((t3 - t0) ∷ []);
      seqs = s.seqs ++ (got ∷ []);
    }
    else lose s

-- `rx.recv()` under the timeout
abbrev pub recv : List Stamps → Option Stamps × List Stamps
recv [] = (none, [])
recv (r ∷ q) = (some r, q)

abbrev pub check_reply : ℕ → ℕ → Option Stamps → Stages → Stages
check_reply t0 t0b none s = lose s
check_reply t0 t0b (some r) s = if r.0 == s.seq then record_row t0 t0b r s else lose s

abbrev pub next_seq : Stages → Stages
next_seq s = record s { seq = suc s.seq }

-- What follows a send that returned `Ok`
abbrev pub exchange : Trip → Stages → Stages
exchange x s =
    let (r, q) = recv (s.queue ++ x.arrivals) in
    next_seq (check_reply x.t0 x.t0b r (record s { queue = q }))

-- One frame, with one turn for each of `0..burst`
pub burst_loop : List Trip → Stages → Stages
burst_loop [] s = s
burst_loop (x ∷ l) s = let rest = burst_loop l (exchange x s) in if x.accepted then rest else s

pub frame_loop : List (List Trip) → Stages → Stages
frame_loop [] s = s
frame_loop (f ∷ l) s = frame_loop l (burst_loop f s)
