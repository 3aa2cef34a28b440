-- ===== src/Examples/Watch/Counts.antt =====
-- `throughput` counts the messages that went out and the sends that found the queue full.
use strong_ipc.Prelude.{
  ℕ, ◌+◌, ◌%◌, ◌^◌, ◌≤◌, ◌<◌, ◌≡◌, ◌⊎◌, inl, inr, refl, Bool, true, false, Bool-cases, Option, List,
  [], ◌∷◌, ◌++◌, ap, length, ◌==◌, arith, if◌then◌else◌,
}
use strong_ipc.Examples.Ordering.{u64}
use strong_ipc.Examples.Watch.{
  FdWatch, Look, Run, went, aborted, and_went, sample_fds, Tried, taken, refused, full, client_send,
  sample_if, Push, Flow, Pushed, watched, look_up, after_send, unless_left, push_one, push_all,
}

-- A predicate of what a run gives, if it is not aborted
abbrev pub OnWent : {A : Type 0} → (A → Type 0) → Run A → Type 0
OnWent P (went a) = P a
OnWent P (aborted m n) = Unit

OnWent-and_went :
    {A B : Type 0} (P : A → Type 0) (Q : B → Type 0) (r : Run A) (f : A → Run B)
    → OnWent P r
    → ((a : A) → P a → OnWent Q (f a))
    → OnWent Q (and_went r f)
OnWent-and_went P Q (went a) f h k = k a h
OnWent-and_went P Q (aborted m n) f h k = tt

OnWent-all : {A : Type 0} (P : A → Type 0) (r : Run A) → ((a : A) → P a) → OnWent P r
OnWent-all P (went a) h = h a
OnWent-all P (aborted m n) h = tt

-- Whether a message went out, and whether its send found the queue full
abbrev pub one_if : Bool → ℕ
one_if b = if b then 1 else 0

abbrev pub went_out : Tried → ℕ
went_out taken = 1
went_out refused = 0
went_out (full look b) = one_if b

abbrev pub was_full : Tried → ℕ
was_full taken = 0
was_full refused = 0
was_full (full look b) = 1

abbrev pub tally_of : (Tried → ℕ) → List Push → ℕ
tally_of count [] = 0
tally_of count (push ∷ pushes) = count push.tried + tally_of count pushes

-- What one turn adds
abbrev pub Adds : Flow → ℕ → ℕ → Pushed → Type 0
Adds f n m r = (r.1.sent ≡ f.sent + n) × (r.1.retries ≡ f.retries + m)

abbrev SameCounts : Flow → Flow → Type 0
SameCounts f g = (g.sent ≡ f.sent) × (g.retries ≡ f.retries)

watched-SameCounts : (look : Option Look) (f : Flow) → OnWent (SameCounts f) (watched look f)
watched-SameCounts look f =
    OnWent-and_went (λ w. Unit) (SameCounts f) (sample_if look f.watch)
      (λ w. went (record f { watch = w }))
      (OnWent-all (λ w. Unit) (sample_if look f.watch) (λ w. tt)) (λ w h. (refl, refl))

Adds-look_up : (push : Push) (f : Flow) → OnWent (Adds f 0 0) (look_up push f)
Adds-look_up push f = elim (Bool-cases (f.sent % 64 == 0)) [
  | inl e ↦ elim (Bool-cases push.past) [
    | inl p ↦ rw (e, p) (omega arith, omega arith)
    | inr p ↦
        rw (e, p)
          (OnWent-and_went (SameCounts f) (Adds f 0 0) (watched push.look f) (λ g. went (false, g))
            (watched-SameCounts push.look f) (λ g h. (omega (arith, h.0), omega (arith, h.1))))
  ]
  | inr e ↦ rw e (omega arith, omega arith)
]

client_send-counts :
    (t : Tried) (n : ℕ) (w : FdWatch)
    → n + 1 < 2 ^ 64
    → OnWent (λ s. (s.1 ≡ n + was_full t) × (one_if s.0 ≡ went_out t)) (client_send t n w)
unfolding client_send
client_send-counts taken n w h = (omega arith, refl)
client_send-counts refused n w h = (omega arith, refl)
client_send-counts (full look b) n w h =
    OnWent-and_went (λ w'. Unit) (λ s. (s.1 ≡ n + 1) × (one_if s.0 ≡ one_if b)) (sample_fds look w)
      (λ w'. went (b, u64 (n + 1), w')) (OnWent-all (λ w'. Unit) (sample_fds look w) (λ w'. tt))
      (λ w' u. (omega arith, refl))

OnWent-weaken :
    {A : Type 0} (P Q : A → Type 0) (r : Run A) → ((a : A) → P a → Q a) → OnWent P r → OnWent Q r
OnWent-weaken P Q (went a) k h = k a h
OnWent-weaken P Q (aborted m n) k h = tt

after_send-Adds :
    (push : Push) (f : Flow) (n m : ℕ) (s : Bool × ℕ × FdWatch)
    → f.sent + 1 < 2 ^ 64
    → (s.1 ≡ f.retries + m) × (one_if s.0 ≡ n)
    → OnWent (Adds f n m) (after_send push f s)
after_send-Adds push f n m (true, retries, watch) h e =
    let g : Flow = record { sent = u64 (f.sent + 1); retries = retries; watch = watch } in
    OnWent-weaken (Adds g 0 0) (Adds f n m) (look_up push g)
      (λ r a. (omega (arith, a.0, e.1), omega (arith, a.1, e.0))) (Adds-look_up push g)
after_send-Adds push f n m (false, retries, watch) h e = (omega (arith, e.1), omega (arith, e.0))

push_one-Adds :
    (push : Push) (f : Flow)
    → f.sent + 1 < 2 ^ 64
    → f.retries + 1 < 2 ^ 64
    → OnWent (Adds f (went_out push.tried) (was_full push.tried)) (push_one push f)
unfolding push_one
push_one-Adds push f h b =
    OnWent-and_went
      (λ s. (s.1 ≡ f.retries + was_full push.tried) × (one_if s.0 ≡ went_out push.tried))
      (Adds f (went_out push.tried) (was_full push.tried))
      (client_send push.tried f.retries f.watch) (after_send push f)
      (client_send-counts push.tried f.retries f.watch b)
      (λ s. after_send-Adds push f (went_out push.tried) (was_full push.tried) s h)

-- The loop has taken some turns: all, or those up to the `break`.
abbrev pub HasCounted : List Push → Flow → Pushed → Type 0
HasCounted pushes f r =
    (done : List Push) × (rest : List Push) × (pushes ≡ done ++ rest)
    × (r.1.sent ≡ f.sent + tally_of went_out done)
    × (r.1.retries ≡ f.retries + tally_of was_full done)
    × ((r.0 ≡ true) ⊎ (rest ≡ []))

one_if_le : (b : Bool) → one_if b ≤ 1
one_if_le true = omega arith
one_if_le false = omega arith

tried_le : (t : Tried) → (went_out t ≤ 1) × (was_full t ≤ 1)
tried_le taken = (omega arith, omega arith)
tried_le refused = (omega arith, omega arith)
tried_le (full look b) = (one_if_le b, omega arith)

HasCounted-cons :
    (push : Push) (pushes : List Push) (f : Flow) (left : Bool) (g : Flow)
    → Adds f (went_out push.tried) (was_full push.tried) (left, g)
    → (r : Pushed) → HasCounted pushes g r
    → HasCounted (push ∷ pushes) f r
HasCounted-cons push pushes f left g a r (done, rest, e, p, q, o) =
    (push ∷ done, rest, ap (◌∷◌ push) e, omega (arith, a.0, p), omega (arith, a.1, q), o)

after_push-HasCounted :
    (push : Push) (pushes : List Push) (f : Flow) (k : Flow → Run Pushed)
    → ((g : Flow)
        → Adds f (went_out push.tried) (was_full push.tried) (false, g)
        → OnWent (HasCounted pushes g) (k g))
    → (r : Pushed) → Adds f (went_out push.tried) (was_full push.tried) r
    → OnWent (HasCounted (push ∷ pushes) f) (unless_left k r)
after_push-HasCounted push pushes f k h (true, g) a =
    (push ∷ [], pushes, refl, omega (arith, a.0), omega (arith, a.1), inl refl)
after_push-HasCounted push pushes f k h (false, g) a =
    OnWent-weaken (HasCounted pushes g) (HasCounted (push ∷ pushes) f) (k g)
      (HasCounted-cons push pushes f false g a) (h g a)

-- Where the watchdog does not stop the run, `throughput` has taken all its turns or left at one,
-- and by then `sent` and `retries` have grown by the messages that went out and by the sends that
-- found the queue full, if neither counter can overflow in so many turns.
pub push_all-HasCounted :
    (pushes : List Push) (f : Flow)
    → f.sent + length pushes < 2 ^ 64
    → f.retries + length pushes < 2 ^ 64
    → OnWent (HasCounted pushes f) (push_all pushes f)
unfolding push_all
push_all-HasCounted [] f h b = ([], [], refl, omega arith, omega arith, inr refl)
push_all-HasCounted (push ∷ pushes) f h b =
    OnWent-and_went (Adds f (went_out push.tried) (was_full push.tried))
      (HasCounted (push ∷ pushes) f) (push_one push f) (unless_left (push_all pushes))
      (push_one-Adds push f (omega arith) (omega arith))
      (after_push-HasCounted push pushes f (push_all pushes) (λ g a.
        push_all-HasCounted pushes g (omega (arith, a.0, tried_le push.tried))
          (omega (arith, a.1, tried_le push.tried))))
