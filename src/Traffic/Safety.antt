-- ===== src/Traffic/Safety.antt =====
-- What holds of every schedule of senders and drain task.
use strong_ipc.Prelude.{
  ℕ, ◌+◌, ◌≤◌, ◌<◌, ◌^◌, ◌≡◌, ◌≢◌, ◌⊎◌, inl, inr, refl, sym, ap, ◌∙◌, false, some, none, Option,
  List, [], ◌∷◌, ◌++◌, arith, length, append-nil, append_assoc,
}
use mathlib.Core.Path.{ap₂}
use strong_ipc.Prelude.Family.{sum_below-le}
use strong_ipc.Channel.{Mpsc, Tried}
use strong_ipc.Wire.Sizes.{depth}
use strong_ipc.Outbox.{Outbox, offer, broken, stopped, receiving, take_next, release}
use strong_ipc.Outbox.View.{pending_of, queue_of}
use strong_ipc.Traffic.{
  Act, later, Pump, drain_take, drain_sent, drain_failed, drain_settle, drain_uncount, drain_stop,
  Pc, Sent, Thread, Shared, System, Step, act, pump, Reach,
}
use strong_ipc.Capability.Gate.{backlog}
use strong_ipc.Traffic.Order.{Ordered, Ordered-append_left}
use strong_ipc.Traffic.Line.{
  IsUnbuilt, message_of, line, tail_of, keep, enqueue, overtake, Act-Change,
}
use strong_ipc.Traffic.Count.{busy, claim_of}
use strong_ipc.Traffic.Invariant.{claims, Reach-Inv}

claim_le : (p : Pc) → claim_of p ≤ 1
claim_le p = ground arith

module _ (k : Mpsc Sent) {n : ℕ} {s : System k} (few : n < 2 ^ 63) (r : Reach k n s) where
  open s.shared use {outbox, drain, wire}

  -- With fewer than 2 ^ 63 threads, in every reachable state the messages on the wire are, for
  -- each sender, in the order of its calls and without repetition, whichever of them went inline
  -- and whichever through the outbox.
  pub sender_order : Ordered wire
  sender_order = Ordered-append_left wire (tail_of k s.shared) (Reach-Inv k few r).good.0

  -- With fewer than 2 ^ 63 threads, in every reachable state the pending counter is at most the
  -- queue's depth, one for the drain task and one for each thread, so it never wraps; and while
  -- the drain task has not stopped it is exactly the queued messages, the one that the drain task
  -- has not settled, and the threads inside a claim.
  pub pending_counts :
      (pending_of k outbox ≤ depth + 1 + n)
      × ((drain ≡ stopped)
          ⊎ (pending_of k outbox ≡ length (queue_of k outbox) + busy drain + claims k n s.thread))
  pending_counts = (
    ground (
      arith,
      Reach-Inv k few r,
      sum_below-le n (λ j. claim_of (s.thread j).pc) (λ j. claim_le (s.thread j).pc),
    ),
    ground (arith, Reach-Inv k few r),
  )

  -- With fewer than 2 ^ 63 threads, once no thread is inside a claim and nothing is queued, a
  -- drain task that waits for messages finds the fast path open again.
  pub fast_path_reopens :
      drain ≡ receiving
      → queue_of k outbox ≡ []
      → claims k n s.thread ≡ 0
      → backlog k outbox ≡ false
  unfolding backlog
  fast_path_reopens d e c = ground (arith, Reach-Inv k few r)

-- A drain task that has stopped is not started again.
Act-stopped :
    {k : Mpsc Sent} {i : ℕ} {sh sh' : Shared k} {t t' : Thread}
    → Act k i sh t sh' t'
    → sh.drain ≡ stopped
    → IsUnbuilt k sh.outbox sh.drain
    → sh'.drain ≡ stopped
Act-stopped (Act.build_first m e f) h u = ground arith
Act-stopped a h u = h

Pump-stopped :
    {k : Mpsc Sent} {sh sh' : Shared k} → Pump k sh sh' → sh.drain ≡ stopped → sh'.drain ≡ stopped
Pump-stopped (drain_take m o e f g) h = ground arith
Pump-stopped (drain_sent m e) h = ground arith
Pump-stopped (drain_failed m e) h = ground arith
Pump-stopped (drain_settle o e f) h = ground arith
Pump-stopped (drain_uncount o e f) h = ground arith
Pump-stopped (drain_stop o e f) h = refl

-- A drain task that has not failed moves messages along the line.
Pump-line :
    (k : Mpsc Sent) {sh sh' : Shared k}
    → Pump k sh sh'
    → sh'.drain ≢ broken
    → sh'.drain ≢ stopped
    → line k sh' ≡ line k sh
unfolding take_next release
Pump-line k (drain_take m o e f g) b c = ground (arith, k.recv_law o.sender)
Pump-line k {sh} (drain_sent m e) b c =
    append_assoc sh.wire (m ∷ []) (queue_of k sh.outbox) ∙ ap (◌++◌ sh.wire) (ground arith)
Pump-line k (drain_failed m e) b c = absurd (b refl)
Pump-line k (drain_settle o e f) b c = ground arith
Pump-line k (drain_uncount o e f) b c = ground arith
Pump-line k (drain_stop o e f) b c = absurd (c refl)

-- `l'` is `l`, or `l` with the message of a thread's call put in somewhere.
abbrev pub Grows : (ℕ → Thread) → ℕ → List Sent → List Sent → Type 0
Grows th n l l' =
    (l' ≡ l)
    ⊎ ((i : ℕ) × (m : Sent) × (xs : List Sent) × (ys : List Sent) × (i < n)
        × (message_of (th i).pc ≡ some m)
        × (l ≡ xs ++ ys)
        × (l' ≡ xs ++ (m ∷ ys)))

module _ (k : Mpsc Sent) {n : ℕ} (few : n < 2 ^ 63) where
  closed_state :
      {s : System k}
      → Reach k n s
      → s.shared.drain ≡ stopped
      → (s.shared.drain ≡ stopped)
        × ((o : Outbox k) × (s.shared.outbox ≡ some o)
            × (queue_of k (some o) ≡ [])
            × ((m : Sent) → (offer k m o).0 ≡ Tried.closed m))
  unfolding offer
  closed_state {s} r e = (e, go s.shared.outbox refl)
    where
      go :
          (b : Option (Outbox k))
          → s.shared.outbox ≡ b
          → (o : Outbox k) × (s.shared.outbox ≡ some o)
            × (queue_of k (some o) ≡ [])
            × ((m : Sent) → (offer k m o).0 ≡ Tried.closed m)
      go none h = absurd (ground (arith, (Reach-Inv k few r).counted))
      go (some o) h = (
        o,
        h,
        ground (arith, (Reach-Inv k few r).counted),
        λ m. ground (arith, (Reach-Inv k few r).counted, k.try_send_law m o.sender),
      )

  Step-stopped :
      {s s' : System k}
      → Reach k n s
      → Step k n s s'
      → s.shared.drain ≡ stopped
      → s'.shared.drain ≡ stopped
  Step-stopped r (act i lt a) e = Act-stopped a e (Reach-Inv k few r).counted.unbuilt
  Step-stopped r (pump a) e = Pump-stopped a e

  -- With fewer than 2 ^ 63 threads, no step from a reachable state loses, reorders or repeats an
  -- accepted message, or accepts one that no thread is sending, unless the drain task's own send
  -- has failed.
  pub Step-Grows :
      {s s' : System k}
      → Reach k n s
      → Step k n s s'
      → s'.shared.drain ≢ broken
      → s'.shared.drain ≢ stopped
      → Grows s.thread n (line k s.shared) (line k s'.shared)
  Step-Grows {s} r (act i lt a) b c = elim (Act-Change k (Reach-Inv k few r).counted.unbuilt a) [
    | keep w e x ↦ inl (ap₂ ◌++◌ w e)
    | enqueue m g w e x ↦ inr (
      i,
      m,
      line k s.shared,
      [],
      lt,
      g,
      sym (append-nil _),
      ap₂ ◌++◌ w e ∙ sym (append_assoc wire tail (m ∷ [])),
    )
    | overtake m g w e x ↦
        inr
          (i, m, wire, tail, lt, ground arith, refl, ap₂ ◌++◌ w e ∙ append_assoc wire (m ∷ []) tail)
  ]
    where
      open s.shared use {wire}

      tail : List Sent
      tail = tail_of k s.shared
  Step-Grows {s} r (pump {sh} a) b c = inl (Pump-line k a b c)

  -- With fewer than 2 ^ 63 threads, once the drain task has stopped, that is its own send has failed and
  -- its receiver has been dropped, the outbox never takes a message again: in every state from then
  -- on its queue is empty and its channel gives each message straight back as `Closed`, whatever the
  -- socket would do.
  pub stopped_forever :
      {s s' : System k}
      → Reach k n s
      → Step k n s s'
      → s.shared.drain ≡ stopped
      → (s'.shared.drain ≡ stopped)
        × ((o : Outbox k) × (s'.shared.outbox ≡ some o)
            × (queue_of k (some o) ≡ [])
            × ((m : Sent) → (offer k m o).0 ≡ Tried.closed m))
  stopped_forever {s' = s'} r st e = closed_state (later r st) (Step-stopped r st e)
