-- ===== src/Traffic/Delivery.antt =====
-- From `try_send` and `send` in many threads to the handler calls of the node at the other end: the
-- socket hands over what the kernel took, in that order, and the receive loop of Node.antt reads it.
use mathlib.Core.Path.{subst}
use strong_ipc.Prelude.{
  ℕ, ◌<◌, ◌^◌, ◌≡◌, ◌≢◌, sym, false, some, none, List, [], ◌∷◌, map, length, All, All-append, arith,
}
use strong_ipc.Prelude.Family.{put, put_elim}
use strong_ipc.Io.{ok}
use strong_ipc.Message.{Message, payload}
use strong_ipc.Wire.Sizes.{max_message_size}
use strong_ipc.Capability.Gate.{is_too_large}
use strong_ipc.Channel.{Mpsc}
use strong_ipc.Node.{Datagram, Buffers, recv_loop}
use strong_ipc.Node.Laws.{whole, IsDeliverable, recv_loop-accepted}
use strong_ipc.Traffic.{Sent, Thread, Shared, Act, System, act, pump, Reach, start, later}
use strong_ipc.Traffic.Order.{Ordered}
use strong_ipc.Traffic.Line.{
  message_of, tail_of, keep, enqueue, overtake, Act-Change, Flow, still, arrive, lose, cut,
  Pump-Flow,
}
use strong_ipc.Traffic.Calls.{returned, began, went_on, Act-Turn}
use strong_ipc.Traffic.Invariant.{Reach-Inv}
use strong_ipc.Traffic.Safety.{sender_order}

abbrev IsSmall : Sent → Type 0
IsSmall m = is_too_large m.message ≡ false

abbrev pub IsFull : Sent → Type 0
IsFull m = payload m.message ≢ []

-- What a thread has in hand has passed the size check.
abbrev HoldsSmall : Thread → Type 0
HoldsSmall t = (m : Sent) → message_of t.pc ≡ some m → IsSmall m

abbrev pub payload_of : Sent → Message
payload_of m = m.message

module _ (k : Mpsc Sent) where
  record AllSmall (sh : Shared k) (th : ℕ → Thread) : Type 0 where
    on_wire : All IsSmall sh.wire
    waiting : All IsSmall (tail_of k sh)
    in_hands : (i : ℕ) → HoldsSmall (th i)

  Act-HoldsSmall :
      {i : ℕ} {sh sh' : Shared k} {t t' : Thread}
      → Act k i sh t sh' t'
      → HoldsSmall t
      → HoldsSmall t'
  Act-HoldsSmall a h x q = elim (Act-Turn k a) [
    | returned e ↦ ground arith
    | began m e f g small ↦ ground arith
    | went_on e f ↦ ground (arith, h x)
  ]

  module _ {n : ℕ} (few : n < 2 ^ 63) where
    Act-AllSmall :
        {s : System k} {i : ℕ} {sh : Shared k} {t : Thread}
        → Reach k n s
        → Act k i s.shared (s.thread i) sh t
        → AllSmall s.shared s.thread
        → AllSmall sh (put s.thread i t)
    Act-AllSmall {s} {i} {sh} {t} r a v =
        elim (Act-Change k (Reach-Inv k few r).counted.unbuilt a) [
          | keep w e m ↦ record {
            on_wire = subst (All IsSmall) (sym w) v.on_wire;
            waiting = subst (All IsSmall) (sym e) v.waiting;
            in_hands = hands;
          }
          | enqueue m h w e x ↦ record {
            on_wire = subst (All IsSmall) (sym w) v.on_wire;
            waiting =
                subst (All IsSmall) (sym e) (
                  All-append IsSmall (tail_of k s.shared) (m ∷ []) v.waiting
                    (v.in_hands i m h, tt));
            in_hands = hands;
          }
          | overtake m h w e x ↦ record {
            on_wire = subst (All IsSmall) (sym w) (
                All-append IsSmall s.shared.wire (m ∷ []) v.on_wire
                  (v.in_hands i m (ground arith), tt));
            waiting = subst (All IsSmall) (sym e) v.waiting;
            in_hands = hands;
          }
        ]
      where
        hands : (j : ℕ) → HoldsSmall (put s.thread i t j)
        hands =
            put_elim (λ j t. HoldsSmall t) s.thread i t (Act-HoldsSmall a (v.in_hands i))
              (λ j ne. v.in_hands j)

    Pump-AllSmall :
        {sh sh' : Shared k} {th : ℕ → Thread} → Flow k sh sh' → AllSmall sh th → AllSmall sh' th
    Pump-AllSmall (still w e) v = record {
      on_wire = subst (All IsSmall) (sym w) v.on_wire;
      waiting = subst (All IsSmall) (sym e) v.waiting;
      in_hands = v.in_hands;
    }
    Pump-AllSmall {sh} {sh'} (arrive m w e) v =
        let (first, rest) = subst (All IsSmall) e v.waiting in
        record {
          on_wire =
              subst (All IsSmall) (sym w)
                (All-append IsSmall sh.wire (m ∷ []) v.on_wire (first, tt));
          waiting = rest;
          in_hands = v.in_hands;
        }
    Pump-AllSmall (lose m w e) v = record {
      on_wire = subst (All IsSmall) (sym w) v.on_wire;
      waiting = (subst (All IsSmall) e v.waiting).1;
      in_hands = v.in_hands;
    }
    Pump-AllSmall (cut w e) v = record {
      on_wire = subst (All IsSmall) (sym w) v.on_wire;
      waiting = subst (All IsSmall) (sym e) tt;
      in_hands = v.in_hands;
    }

    Reach-AllSmall : {s : System k} → Reach k n s → AllSmall s.shared s.thread
    Reach-AllSmall start = record { on_wire = tt; waiting = tt; in_hands = λ i m e. cc }
    Reach-AllSmall (later r (act i lt a)) = Act-AllSmall r a (Reach-AllSmall r)
    Reach-AllSmall (later r (pump a)) = Pump-AllSmall (Pump-Flow k a) (Reach-AllSmall r)

    -- With fewer than 2 ^ 63 threads that call `try_send` and `send` on one `Ref`, in every reachable
    -- state: if no message on the wire is empty, and the socket hands over what is on it, in that
    -- order, then the receive loop of a node with this crate's buffer makes exactly one handler
    -- call for each, with its exact payload, and waits for more; and of each sender these are in
    -- the order of its calls.
    pub handled_in_order :
        {s : System k}
        → Reach k n s
        → (b : Buffers) (dress : Message → Datagram)
        → ((m : Message) → (dress m).content ≡ payload m)
        → (buf : List ℕ) → length buf ≡ max_message_size
        → All IsFull s.shared.wire
        → (recv_loop b buf (map (λ m. ok (dress m)) (map payload_of s.shared.wire))
            ≡ (map (λ m. whole (dress m)) (map payload_of s.shared.wire), none))
          × Ordered s.shared.wire
    handled_in_order {s} r b dress same buf len full = (
      recv_loop-accepted b dress same buf len (map payload_of s.shared.wire)
          (deliverable s.shared.wire (Reach-AllSmall r).on_wire full),
      sender_order k few r,
    )
      where
        deliverable :
            (l : List Sent)
            → All IsSmall l
            → All IsFull l
            → All (IsDeliverable b) (map payload_of l)
        deliverable [] a c = tt
        deliverable (m ∷ l) a c = ((a.0, c.0), deliverable l a.1 c.1)
