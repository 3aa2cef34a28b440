-- ===== src/Traffic/Line.antt =====
-- What an access does to the line of accepted messages: those on the wire, then the one that the
-- drain task holds, then the queue.
use strong_ipc.Prelude.{
  ℕ, ◌+◌, ◌≤◌, ◌≡◌, ◌≢◌, refl, inl, inr, true, Option, none, some, List, [], ◌∷◌, ◌++◌,
  append_assoc, arith, Bool-cases,
}
use strong_ipc.Channel.{Mpsc}
use strong_ipc.Wire.Sizes.{depth}
use strong_ipc.Outbox.{
  Outbox, Drain, absent, receiving, holding, sent_one, broken, closing, stopped, build, claim,
  release, offer, poll_reserve, use_permit, take_next, drop_receiver,
}
use strong_ipc.Outbox.View.{queue_of}
use strong_ipc.Traffic.{
  Sent, Pc, idle, checked, loaded, backed, pushing, claimed, bounced, waiting, permitted, filling,
  Thread, Shared, Act, Pump, begin, too_large, load, inline_sent, push_sent, permit_fill,
  drain_take, drain_sent, drain_failed, drain_settle, drain_uncount, drain_stop,
}

abbrev pub in_hand : Drain Sent → List Sent
in_hand (holding m) = m ∷ []
in_hand absent = []
in_hand receiving = []
in_hand sent_one = []
in_hand broken = []
in_hand closing = []
in_hand stopped = []

abbrev pub message_of : Pc → Option Sent
message_of idle = none
message_of (checked m) = some m
message_of (loaded b m) = some m
message_of (backed m) = some m
message_of (pushing m) = some m
message_of (claimed m) = some m
message_of (bounced b m) = some m
message_of (waiting m) = some m
message_of (permitted m) = some m
message_of (filling m) = some m

module _ (k : Mpsc Sent) where
  open k use {view, try_send_law, reserve_law, recv_law, view-permit_send, view-close, view-channel}

  -- accepted, and not on the wire
  abbrev pub tail_of : Shared k → List Sent
  tail_of sh = in_hand sh.drain ++ queue_of k sh.outbox

  abbrev pub line : Shared k → List Sent
  line sh = sh.wire ++ tail_of sh

  abbrev pub IsUnbuilt : Option (Outbox k) → Drain Sent → Type 0
  IsUnbuilt none d = d ≡ absent
  IsUnbuilt (some o) d = d ≢ absent

  -- How an access of a thread changes the line.
  pub data Change (sh sh' : Shared k) (t t' : Thread) : Type 0 where
    keep : sh'.wire ≡ sh.wire → tail_of sh' ≡ tail_of sh → t.next ≤ t'.next → Change sh sh' t t'
    enqueue :
        (m : Sent)
        → message_of t.pc ≡ some m
        → sh'.wire ≡ sh.wire
        → tail_of sh' ≡ tail_of sh ++ (m ∷ [])
        → t'.next ≡ t.next + 1
        → Change sh sh' t t'
    overtake :
        (m : Sent)
        → t.pc ≡ loaded true m
        → sh'.wire ≡ sh.wire ++ (m ∷ [])
        → tail_of sh' ≡ tail_of sh
        → t'.next ≡ t.next + 1
        → Change sh sh' t t'

  pub Act-Change :
      {i : ℕ} {sh sh' : Shared k} {t t' : Thread}
      → IsUnbuilt sh.outbox sh.drain
      → Act k i sh t sh' t'
      → Change sh sh' t t'
  unfolding build claim release offer poll_reserve use_permit
  Act-Change u (begin m e f) = keep refl refl (omega arith)
  Act-Change u (too_large m e f) = keep refl refl (omega arith)
  Act-Change u (load m e) = keep refl refl (omega arith)
  Act-Change u (inline_sent m e) = overtake m e refl refl refl
  Act-Change u (Act.inline_blocked m e) = keep refl refl (omega arith)
  Act-Change u (Act.inline_failed m e) = keep refl refl (omega arith)
  Act-Change u (Act.skip_inline m e) = keep refl refl (omega arith)
  Act-Change u (Act.build_first m e f) =
      keep refl (ground (arith, view-channel depth)) (omega arith)
  Act-Change u (Act.build_found m o e f) = keep refl refl (omega arith)
  Act-Change u (Act.build_failed m e f) = keep refl refl (omega arith)
  Act-Change u (Act.push_claim m o e f) = keep refl (ground arith) (omega arith)
  Act-Change {sh} u (push_sent m o e f g) =
      enqueue m (ground arith) refl
        (ground (
          arith,
          try_send_law m o.sender,
          append_assoc (in_hand sh.drain) (view o.sender).queued (m ∷ []),
        ))
        refl
  Act-Change u (Act.push_full m o e f g) =
      keep refl (ground (arith, try_send_law m o.sender)) (omega arith)
  Act-Change u (Act.push_closed m o e f g) =
      keep refl (ground (arith, try_send_law m o.sender)) (omega arith)
  Act-Change u (Act.give_back b m o e f) = keep refl (ground arith) (omega arith)
  Act-Change u (Act.wait_for_room m o e f) = keep refl (ground arith) (omega arith)
  Act-Change u (Act.abandon m e) = keep refl refl (omega arith)
  Act-Change u (Act.reserve_closed m o e f g) =
      keep refl (ground (arith, reserve_law o.sender)) (omega arith)
  Act-Change u (Act.reserve_parked m o e f g) =
      keep refl (ground (arith, reserve_law o.sender)) (omega arith)
  Act-Change u (Act.reserve_granted m o e f g) =
      keep refl (ground (arith, reserve_law o.sender)) (omega arith)
  Act-Change u (Act.permit_claim m o e f) = keep refl (ground arith) (omega arith)
  Act-Change {sh} u (permit_fill m o e f) = elim (Bool-cases (view o.sender).is_closed) [
    | inl gone ↦ keep refl (ground (arith, view-permit_send m o.sender)) (omega arith)
    | inr here ↦
        enqueue m (ground arith) refl
          (ground (
            arith,
            view-permit_send m o.sender,
            append_assoc (in_hand sh.drain) (view o.sender).queued (m ∷ []),
          ))
          refl
  ]

  -- How an access of the drain task changes the line.
  pub data Flow (sh sh' : Shared k) : Type 0 where
    still : sh'.wire ≡ sh.wire → tail_of sh' ≡ tail_of sh → Flow sh sh'
    arrive :
        (m : Sent) → sh'.wire ≡ sh.wire ++ (m ∷ []) → tail_of sh ≡ m ∷ tail_of sh' → Flow sh sh'
    lose : (m : Sent) → sh'.wire ≡ sh.wire → tail_of sh ≡ m ∷ tail_of sh' → Flow sh sh'
    cut : sh'.wire ≡ sh.wire → tail_of sh' ≡ [] → Flow sh sh'

  pub Pump-Flow : {sh sh' : Shared k} → Pump k sh sh' → Flow sh sh'
  unfolding release take_next drop_receiver
  Pump-Flow (drain_take m o e f g) = still refl (ground (arith, recv_law o.sender))
  Pump-Flow (drain_sent m e) = arrive m refl (ground arith)
  Pump-Flow (drain_failed m e) = lose m refl (ground arith)
  Pump-Flow (drain_settle o e f) = still refl (ground arith)
  Pump-Flow (drain_uncount o e f) = still refl (ground arith)
  Pump-Flow (drain_stop o e f) = cut refl (ground (arith, view-close o.sender))
