-- ===== src/Examples/Frames/Laws.antt =====
-- What a frame of paced.rs adds to the samples and to `lost`.
use strong_ipc.Prelude.{
  ℕ, suc, ◌+◌, ◌-◌, ◌≤◌, ◌≡◌, ◌∙◌, ap, refl, true, false, inl, inr, Option, none, some,
  Option-cases, List, [], ◌∷◌, ◌++◌, length, length-append, ltb, if◌then◌else◌, arith,
}
use strong_ipc.Prelude.Family.{put}
use strong_ipc.Examples.Frames.{
  Reply, Posted, Round, sequential, pipelined, Frames, lose, next_seq, sample, own_reply,
  run_sequential, send_all, match_reply, receive_all, run_round, tick,
}

abbrev missed : Reply → ℕ
missed none = 1
missed (some _) = 0

abbrev pub misses_of : List Reply → ℕ
misses_of [] = 0
misses_of (r ∷ l) = missed r + misses_of l

-- The receives of a frame that timed out
abbrev pub misses_own : List (Posted × Reply) → ℕ
misses_own [] = 0
misses_own (((_, ok), r) ∷ l) = let rest = misses_own l in if ok then missed r + rest else 0

abbrev pub misses : Round → ℕ
misses (sequential l) = misses_own l
misses (pipelined _ rs) = misses_of rs

-- `0..burst` bounds the turns of a sequential frame, and the receives of a pipelined one.
abbrev pub Fits : ℕ → Round → Type 0
Fits burst (sequential l) = length l ≤ burst
Fits burst (pipelined _ rs) = length rs ≤ burst

-- From `x` to `y` there are at most `n` new samples, as many as `done` counts, and `k` messages are lost.
record Adds (n k : ℕ) (x y : ℕ × Frames) : Type 0 where
  sampled : length y.1.msg_ns + x.0 ≡ length x.1.msg_ns + y.0
  at_most : y.0 ≤ x.0 + n
  lost : y.1.lost ≡ x.1.lost + k
  bursts : y.1.burst_ns ≡ x.1.burst_ns

Adds-refl : (x : ℕ × Frames) → Adds 0 0 x x
Adds-refl x = record { sampled = refl; at_most = omega arith; lost = omega arith; bursts = refl }

Adds-step :
    {k m j : ℕ} (x y z : ℕ × Frames) → Adds 1 k x y → Adds m j y z → Adds (suc m) (k + j) x z
Adds-step x y z g h = record {
  sampled = omega (arith, g.sampled, h.sampled);
  at_most = omega (arith, g.at_most, h.at_most);
  lost = omega (arith, g.lost, h.lost);
  bursts = h.bursts ∙ g.bursts;
}

-- One sample, one loss: `seq` and `sent_at` are not counted.
module _ (done n : ℕ) (f : ℕ → Option ℕ) (s : Frames) where
  sample-Adds :
      (t0 at : ℕ) → Adds 1 0 (done, s) (sample t0 at (done, record s { seq = n; sent_at = f }))
  sample-Adds t0 at = record {
    sampled = omega (arith, length-append s.msg_ns ((at - t0) ∷ []));
    at_most = omega arith;
    lost = omega arith;
    bursts = refl;
  }

  lose-Adds : Adds 1 1 (done, s) (done, lose (record s { seq = n; sent_at = f }))
  lose-Adds = record { sampled = refl; at_most = omega arith; lost = omega arith; bursts = refl }

match_reply-Adds : (r : Reply) (x : ℕ × Frames) → Adds 1 (missed r) x (match_reply r x)
match_reply-Adds none (done, s) = lose-Adds done s.seq s.sent_at s
match_reply-Adds (some (got, at)) (done, s) = elim (Option-cases (s.sent_at got)) [
  | inl unknown ↦
      rw unknown
        (record { sampled = refl; at_most = omega arith; lost = omega arith; bursts = refl })
  | inr (t0, known) ↦ rw known (sample-Adds done s.seq (put s.sent_at got none) s t0 at)
]

receive_all-Adds :
    (rs : List Reply) (x : ℕ × Frames) → Adds (length rs) (misses_of rs) x (receive_all rs x)
unfolding receive_all
receive_all-Adds [] x = Adds-refl x
receive_all-Adds (r ∷ rs) x =
    Adds-step x (match_reply r x) (receive_all rs (match_reply r x)) (match_reply-Adds r x)
      (receive_all-Adds rs (match_reply r x))

own_reply-Adds :
    (t0 : ℕ) (r : Reply) (done : ℕ) (s : Frames)
    → Adds 1 (missed r) (done, s) (own_reply t0 r (done, next_seq s))
own_reply-Adds t0 none done s = lose-Adds done (suc s.seq) s.sent_at s
own_reply-Adds t0 (some (_, at)) done s = sample-Adds done (suc s.seq) s.sent_at s t0 at

run_sequential-Adds :
    (l : List (Posted × Reply)) (x : ℕ × Frames)
    → Adds (length l) (misses_own l) x (run_sequential l x)
unfolding run_sequential
run_sequential-Adds [] x = Adds-refl x
run_sequential-Adds (((t0, true), r) ∷ l) (done, s) =
    let y = own_reply t0 r (done, next_seq s) in
    Adds-step (done, s) y (run_sequential l y) (own_reply-Adds t0 r done s)
      (run_sequential-Adds l y)
run_sequential-Adds (((t0, false), r) ∷ l) (done, s) = record {
  sampled = refl;
  at_most = omega arith;
  lost = omega arith;
  bursts = refl;
}

pub record Kept (s s' : Frames) : Type 0 where
  pub msg_ns : s'.msg_ns ≡ s.msg_ns
  pub burst_ns : s'.burst_ns ≡ s.burst_ns
  pub lost : s'.lost ≡ s.lost

pub send_all-Kept : (l : List Posted) (s : Frames) → Kept s (send_all l s)
unfolding send_all
send_all-Kept [] s = record { msg_ns = refl; burst_ns = refl; lost = refl }
send_all-Kept ((t0, true) ∷ l) s =
    let h =
      send_all-Kept l (record s { seq = suc s.seq; sent_at = put s.sent_at s.seq (some t0) }) in
    record { msg_ns = h.msg_ns; burst_ns = h.burst_ns; lost = h.lost }
send_all-Kept ((t0, false) ∷ l) s = record { msg_ns = refl; burst_ns = refl; lost = refl }

run_round-Adds :
    (burst : ℕ) (round : Round) (s : Frames)
    → Fits burst round
    → Adds burst (misses round) (0, s) (run_round round (0, s))
run_round-Adds burst (sequential l) s fits =
    let h = run_sequential-Adds l (0, s) in
    record {
      sampled = h.sampled;
      at_most = omega (arith, h.at_most);
      lost = h.lost;
      bursts = h.bursts;
    }
run_round-Adds burst (pipelined l rs) s fits =
    let k = send_all-Kept l s in
    let h = receive_all-Adds rs (0, send_all l s) in
    record {
      sampled = omega (arith, h.sampled, ap length k.msg_ns);
      at_most = omega (arith, h.at_most);
      lost = omega (arith, h.lost, k.lost);
      bursts = h.bursts ∙ k.burst_ns;
    }

pub left_over :
    (done burst l : ℕ) → (if ltb done burst then l + (burst - done) else l) ≡ l + (burst - done)
left_over done burst l = ground arith

-- A frame of at most `burst` messages adds one sample for each reply that it matched, `done` of them, and
-- one entry to `burst_ns`; and `lost` grows by what is left of `burst` after `done`, and by one more for
-- each receive that timed out.
pub tick-Counts :
    (burst period deadline woke frame : ℕ) (round : Round) (s : Frames)
    → Fits burst round
    → let t = tick burst period deadline woke round frame s in
      (done : ℕ) × (done ≤ burst)
      × (length t.msg_ns ≡ length s.msg_ns + done)
      × (t.lost ≡ s.lost + misses round + (burst - done))
      × (t.burst_ns ≡ s.burst_ns ++ (frame ∷ []))
unfolding tick
tick-Counts burst period deadline woke frame round s fits =
    let s₁ = record s { wake_ns = s.wake_ns ++ ((woke - deadline) ∷ []) } in
    let h = run_round-Adds burst round s₁ fits in
    let done = (run_round round (0, s₁)).0 in
    (
      done,
      omega (arith, h.at_most),
      omega (arith, h.sampled),
      left_over done burst _ ∙ ap (λ l. l + (burst - done)) h.lost,
      ap (λ b. b ++ (frame ∷ [])) h.bursts,
    )
