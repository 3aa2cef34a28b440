-- ===== src/Traffic/Count.antt =====
-- What the pending counter and the channel's permits count, across every access.
use strong_ipc.Prelude.{
  ℕ, ◌+◌, ◌≤◌, ◌<◌, ◌^◌, ◌≡◌, ◌≢◌, ◌⊎◌, inl, inr, true, false, [], ◌∷◌, length, length-append,
  arith, Bool-cases,
}
use strong_ipc.Channel.{Mpsc}
use strong_ipc.Wire.Sizes.{depth}
use strong_ipc.Outbox.{
  Drain, absent, holding, sent_one, broken, stopped, build, claim, release, offer, poll_reserve,
  use_permit, take_next, drop_receiver,
}
use strong_ipc.Outbox.View.{lane_of, pending_of, queue_of}
use strong_ipc.Traffic.{
  Sent, Pc, idle, claimed, bounced, permitted, filling, Thread, Shared, Act, Pump, permit_fill,
  drain_take, drain_sent, drain_failed, drain_settle, drain_uncount, drain_stop, begin,
}
use strong_ipc.Traffic.Line.{IsUnbuilt}

-- 1 for a thread whose claim in `pending` has no message in the queue.
abbrev pub claim_of : Pc → ℕ
claim_of (claimed _) = 1
claim_of (bounced _ _) = 1
claim_of (filling _) = 1
claim_of idle = 0
claim_of _ = 0

-- 1 for a thread that holds a permit.
abbrev pub permit_of : Pc → ℕ
permit_of (permitted _) = 1
permit_of (filling _) = 1
permit_of idle = 0
permit_of _ = 0

-- 1 for a drain task that has a message it has not settled.
abbrev pub busy : Drain Sent → ℕ
busy (holding _) = 1
busy sent_one = 1
busy broken = 1
busy absent = 0
busy _ = 0

module _ (k : Mpsc Sent) where
  open k use {try_send_law, reserve_law, recv_law, view-permit_send, view-close, view-channel, view}

  -- `claims` and `permits` count the threads, `stuck` the messages that a stopped drain task left
  -- unsettled.
  pub record Counted (sh : Shared k) (claims permits stuck : ℕ) : Type 0 where
    pub pending_eq :
        pending_of k sh.outbox ≡ length (queue_of k sh.outbox) + busy sh.drain + claims + stuck
    pub permits_eq : (lane_of k sh.outbox).permits ≡ permits
    pub room : length (queue_of k sh.outbox) + permits + stuck ≤ depth
    pub capacity_eq : (lane_of k sh.outbox).capacity ≡ depth
    pub exact :
        ((sh.drain ≡ stopped)
          × ((lane_of k sh.outbox).is_closed ≡ true)
          × (queue_of k sh.outbox ≡ []))
        ⊎ ((stuck ≡ 0) × (sh.drain ≢ stopped) × ((lane_of k sh.outbox).is_closed ≡ false))
    pub unbuilt : IsUnbuilt k sh.outbox sh.drain

  pub Act-Counted :
      {i : ℕ} {sh sh' : Shared k} {t t' : Thread} {c p c' p' stuck : ℕ}
      → Counted sh c p stuck
      → c < 2 ^ 63
      → c' < 2 ^ 63
      → c' + claim_of t.pc ≡ c + claim_of t'.pc
      → p' + permit_of t.pc ≡ p + permit_of t'.pc
      → Act k i sh t sh' t'
      → (stuck' : ℕ) × Counted sh' c' p' stuck'
  unfolding build claim release offer poll_reserve use_permit
  Act-Counted {stuck} v hc hc' ec ep (begin m e f) = (stuck, ground arith)
  Act-Counted {stuck} v hc hc' ec ep (Act.too_large m e f) = (stuck, ground arith)
  Act-Counted {stuck} v hc hc' ec ep (Act.load m e) = (stuck, ground arith)
  Act-Counted {stuck} v hc hc' ec ep (Act.inline_sent m e) = (stuck, ground arith)
  Act-Counted {stuck} v hc hc' ec ep (Act.inline_blocked m e) = (stuck, ground arith)
  Act-Counted {stuck} v hc hc' ec ep (Act.inline_failed m e) = (stuck, ground arith)
  Act-Counted {stuck} v hc hc' ec ep (Act.skip_inline m e) = (stuck, ground arith)
  Act-Counted {stuck} v hc hc' ec ep (Act.build_first m e f) =
      (stuck, ground (arith, view-channel depth))
  Act-Counted {stuck} v hc hc' ec ep (Act.build_found m o e f) = (stuck, ground arith)
  Act-Counted {stuck} v hc hc' ec ep (Act.build_failed m e f) = (stuck, ground arith)
  Act-Counted {stuck} v hc hc' ec ep (Act.push_claim m o e f) = (stuck, ground arith)
  Act-Counted {stuck} v hc hc' ec ep (Act.push_sent m o e f g) = (
    stuck,
    ground (arith, try_send_law m o.sender, length-append (view o.sender).queued (m ∷ [])),
  )
  Act-Counted {stuck} v hc hc' ec ep (Act.push_full m o e f g) =
      (stuck, ground (arith, try_send_law m o.sender))
  Act-Counted {stuck} v hc hc' ec ep (Act.push_closed m o e f g) =
      (stuck, ground (arith, try_send_law m o.sender))
  Act-Counted {stuck} v hc hc' ec ep (Act.give_back b m o e f) = (stuck, ground arith)
  Act-Counted {stuck} v hc hc' ec ep (Act.wait_for_room m o e f) = (stuck, ground arith)
  Act-Counted {stuck} v hc hc' ec ep (Act.abandon m e) = (stuck, ground arith)
  Act-Counted {stuck} v hc hc' ec ep (Act.reserve_closed m o e f g) =
      (stuck, ground (arith, reserve_law o.sender))
  Act-Counted {stuck} v hc hc' ec ep (Act.reserve_parked m o e f g) =
      (stuck, ground (arith, reserve_law o.sender))
  Act-Counted {stuck} v hc hc' ec ep (Act.reserve_granted m o e f g) =
      (stuck, ground (arith, reserve_law o.sender))
  Act-Counted {stuck} v hc hc' ec ep (Act.permit_claim m o e f) = (stuck, ground arith)
  Act-Counted {stuck} v hc hc' ec ep (permit_fill m o e f) =
      elim (Bool-cases (view o.sender).is_closed) [
        | inl gone ↦ (stuck + 1, ground (arith, view-permit_send m o.sender))
        | inr here ↦ (
          stuck,
          ground
              (arith, view-permit_send m o.sender, length-append (view o.sender).queued (m ∷ [])),
        )
      ]

  pub Pump-Counted :
      {sh sh' : Shared k} {c p stuck : ℕ}
      → Counted sh c p stuck
      → c < 2 ^ 63
      → Pump k sh sh'
      → (stuck' : ℕ) × Counted sh' c p stuck'
  unfolding release take_next drop_receiver
  Pump-Counted {stuck} v hc (drain_take m o e f g) = (stuck, ground (arith, recv_law o.sender))
  Pump-Counted {stuck} v hc (drain_sent m e) = (stuck, ground arith)
  Pump-Counted {stuck} v hc (drain_failed m e) = (stuck, ground arith)
  Pump-Counted {stuck} v hc (drain_settle o e f) = (stuck, ground arith)
  Pump-Counted {stuck} v hc (drain_uncount o e f) = (stuck, ground arith)
  Pump-Counted {sh} {stuck} v hc (drain_stop o e f) =
      (stuck + length (queue_of k sh.outbox), ground (arith, view-close o.sender))
