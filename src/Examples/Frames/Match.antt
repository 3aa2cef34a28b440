-- ===== src/Examples/Frames/Match.antt =====
-- A pipelined frame of paced.rs matches replies with messages by their numbers.
use strong_ipc.Prelude.{
  ℕ, suc, ◌+◌, ◌-◌, ◌*◌, ◌≤◌, ◌<◌, ◌≡◌, ◌≢◌, ◌⊎◌, ◌∙◌, ap, sym, refl, true, inl, inr, Option, none,
  some, List, [], ◌∷◌, ◌++◌, map, append_assoc, append-nil, length, All, All-weaken, arith,
}
use strong_ipc.Prelude.Family.{put, put-here, put-other}
use strong_ipc.Examples.Frames.{Reply, Posted, pipelined, Frames, lose, send_all, receive_all, tick}
use strong_ipc.Examples.Frames.Laws.{send_all-Kept, left_over}

-- A reply with its message's number, when that was sent, and when the reply came.
abbrev pub Answer : Type 0
Answer = ℕ × ℕ × ℕ

-- Message `g` was sent at `t`, where the messages from `n` on were sent at the times `l`.
abbrev pub SentAt : ℕ → List ℕ → ℕ → ℕ → Type 0
SentAt n [] g t = ⊥
SentAt n (t0 ∷ l) g t = ((g ≡ n) × (t ≡ t0)) ⊎ SentAt (suc n) l g t

abbrev pub Distinct : List Answer → Type 0
Distinct [] = Unit
Distinct ((g, t, at) ∷ l) = All (λ y. g ≢ y.0) l × Distinct l

abbrev pub reply : Option Answer → Reply
reply none = none
reply (some (g, t, at)) = some (g, at)

-- The answers among the receives, the rest of which timed out.
abbrev pub hits : List (Option Answer) → List Answer
hits [] = []
hits (none ∷ l) = hits l
hits (some y ∷ l) = y ∷ hits l

hits_le : (l : List (Option Answer)) → length (hits l) ≤ length l
hits_le [] = omega arith
hits_le (none ∷ l) = omega (arith, hits_le l)
hits_le (some y ∷ l) = omega (arith, hits_le l)

abbrev pub latency : Answer → ℕ
latency (g, t, at) = at - t

abbrev pub sent_ok : ℕ → Posted
sent_ok t = (t, true)

SentAt-le : (n : ℕ) (l : List ℕ) (g t : ℕ) → SentAt n l g t → n ≤ g
SentAt-le n [] g t h = absurd h
SentAt-le n (t0 ∷ l) g t (inl (e, _)) = omega (arith, e)
SentAt-le n (t0 ∷ l) g t (inr h) = omega (arith, SentAt-le (suc n) l g t h)

-- Later sends keep what is below their numbers.
send_all-before :
    (l : List ℕ) (s : Frames) (g : ℕ)
    → g < s.seq
    → (send_all (map sent_ok l) s).sent_at g ≡ s.sent_at g
unfolding send_all
send_all-before [] s g lt = refl
send_all-before (t0 ∷ l) s g lt =
    send_all-before l _ g (omega arith) ∙ put-other s.sent_at s.seq (some t0) g (omega arith)

send_all-SentAt :
    (l : List ℕ) (s : Frames) (g t : ℕ)
    → SentAt s.seq l g t
    → (send_all (map sent_ok l) s).sent_at g ≡ some t
unfolding send_all
send_all-SentAt [] s g t h = absurd h
send_all-SentAt (t0 ∷ l) s g t (inl (e, e')) =
    send_all-before l _ g (omega arith)
    ∙ (ap (put s.sent_at s.seq (some t0)) e
        ∙ (put-here s.sent_at s.seq (some t0) ∙ ap some (sym e')))
send_all-SentAt (t0 ∷ l) s g t (inr h) = send_all-SentAt l _ g t h

abbrev InFlight : Frames → List Answer → Type 0
InFlight s l = All (λ y. s.sent_at y.0 ≡ some y.1) l

-- A reply was matched.
abbrev taken : ℕ → ℕ → ℕ → Frames → Frames
taken g t at s = record s { sent_at = put s.sent_at g none; msg_ns = s.msg_ns ++ ((at - t) ∷ []) }

taken-InFlight :
    (g t at : ℕ) (s : Frames) (l : List Answer)
    → All (λ y. g ≢ y.0) l
    → InFlight s l
    → InFlight (taken g t at s) l
taken-InFlight g t at s [] ne h = tt
taken-InFlight g t at s (y ∷ l) ne h =
    (put-other s.sent_at g none y.0 ne.0 ∙ h.0, taken-InFlight g t at s l ne.1 h.1)

receive_all-Matched :
    (l : List (Option Answer)) (done : ℕ) (s : Frames)
    → Distinct (hits l)
    → InFlight s (hits l)
    → let x = receive_all (map reply l) (done, s) in
      (x.0 ≡ done + length (hits l))
      × (x.1.msg_ns ≡ s.msg_ns ++ map latency (hits l))
      × (x.1.lost + length (hits l) ≡ s.lost + length l)
unfolding receive_all
receive_all-Matched [] done s d h = (omega arith, sym (append-nil s.msg_ns), refl)
receive_all-Matched (none ∷ l) done s d h =
    let (counted, sampled, lost) = receive_all-Matched l done (lose s) d h in
    (counted, sampled, omega (arith, lost))
receive_all-Matched (some (g, t, at) ∷ l) done s d h =
    let (counted, sampled, lost) =
      receive_all-Matched l (suc done) (taken g t at s) d.1
        (taken-InFlight g t at s (hits l) d.0 h.1) in
    rw (receive_all, h.0)
      (
        omega (arith, counted),
        sampled ∙ append_assoc s.msg_ns ((at - t) ∷ []) (map latency (hits l)),
        omega (arith, lost),
      )

-- In a pipelined frame whose sends are all accepted, and whose receives give replies to distinct messages
-- of this frame, in any order, or time out: the samples are the latencies of exactly those messages, each
-- from its own send. But each message without a reply adds two to `lost`.
pub tick-Matched :
    (period deadline woke frame : ℕ) (ts : List ℕ) (l : List (Option Answer)) (s : Frames)
    → Distinct (hits l)
    → All (λ y. SentAt s.seq ts y.0 y.1) (hits l)
    → let round = pipelined (map sent_ok ts) (map reply l) in
      let t = tick (length l) period deadline woke round frame s in
      (t.msg_ns ≡ s.msg_ns ++ map latency (hits l))
      × (t.lost ≡ s.lost + 2 * (length l - length (hits l)))
unfolding tick
tick-Matched period deadline woke frame ts l s d h =
    let s₁ = record s { wake_ns = s.wake_ns ++ ((woke - deadline) ∷ []) } in
    let k = send_all-Kept (map sent_ok ts) s₁ in
    let (counted, sampled, lost) =
      receive_all-Matched l 0 (send_all (map sent_ok ts) s₁) d
        (All-weaken _ _ (λ y. send_all-SentAt ts s₁ y.0 y.1) (hits l) h) in
    (
      sampled ∙ ap (λ m. m ++ map latency (hits l)) k.msg_ns,
      left_over _ (length l) _ ∙ omega (arith, counted, lost, k.lost, hits_le l),
    )
