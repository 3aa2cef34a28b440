-- ===== src/Traffic/Calls.antt =====
-- The message that a thread has in hand, and the number of its call, across an access.
use strong_ipc.Prelude.{ℕ, ◌≡◌, refl, false, some, none, arith}
use strong_ipc.Capability.Gate.{is_too_large}
use strong_ipc.Channel.{Mpsc}
use strong_ipc.Traffic.{Sent, Thread, Shared, Act}
use strong_ipc.Traffic.Line.{message_of}

-- A call's message bears its sender's name and the number of the call.
abbrev pub IsMine : ℕ → Thread → Type 0
IsMine i t = (m : Sent) → message_of t.pc ≡ some m → (m.sender ≡ i) × (m.seq ≡ t.next)

-- Whether the thread returns, begins a call past its size check, or goes on with its message.
pub data Turn (i : ℕ) (t t' : Thread) : Type 0 where
  returned : message_of t'.pc ≡ none → Turn i t t'
  began :
      (m : Sent)
      → m.sender ≡ i
      → m.seq ≡ t'.next
      → message_of t'.pc ≡ some m
      → is_too_large m.message ≡ false
      → Turn i t t'
  went_on : t'.next ≡ t.next → message_of t'.pc ≡ message_of t.pc → Turn i t t'

module _ (k : Mpsc Sent) where
  pub Act-Turn : {i : ℕ} {sh sh' : Shared k} {t t' : Thread} → Act k i sh t sh' t' → Turn i t t'
  Act-Turn (Act.begin m e f) = began _ refl refl refl f
  Act-Turn (Act.too_large m e f) = returned refl
  Act-Turn (Act.load m e) = went_on refl (ground arith)
  Act-Turn (Act.inline_sent m e) = returned refl
  Act-Turn (Act.inline_blocked m e) = went_on refl (ground arith)
  Act-Turn (Act.inline_failed m e) = returned refl
  Act-Turn (Act.skip_inline m e) = went_on refl (ground arith)
  Act-Turn (Act.build_first m e f) = went_on refl (ground arith)
  Act-Turn (Act.build_found m o e f) = went_on refl (ground arith)
  Act-Turn (Act.build_failed m e f) = returned refl
  Act-Turn (Act.push_claim m o e f) = went_on refl (ground arith)
  Act-Turn (Act.push_sent m o e f g) = returned refl
  Act-Turn (Act.push_full m o e f g) = went_on refl (ground arith)
  Act-Turn (Act.push_closed m o e f g) = went_on refl (ground arith)
  Act-Turn (Act.give_back b m o e f) = returned refl
  Act-Turn (Act.wait_for_room m o e f) = went_on refl (ground arith)
  Act-Turn (Act.abandon m e) = returned refl
  Act-Turn (Act.reserve_closed m o e f g) = returned refl
  Act-Turn (Act.reserve_parked m o e f g) = went_on refl (ground arith)
  Act-Turn (Act.reserve_granted m o e f g) = went_on refl (ground arith)
  Act-Turn (Act.permit_claim m o e f) = went_on refl (ground arith)
  Act-Turn (Act.permit_fill m o e f) = returned refl

  pub Act-IsMine :
      {i : ℕ} {sh sh' : Shared k} {t t' : Thread} → Act k i sh t sh' t' → IsMine i t → IsMine i t'
  Act-IsMine a v x q = elim (Act-Turn a) [
    | returned e ↦ ground arith
    | began m e f g small ↦ ground arith
    | went_on e f ↦ ground (arith, v x)
  ]
