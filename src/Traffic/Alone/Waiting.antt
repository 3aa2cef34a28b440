-- ===== src/Traffic/Alone/Waiting.antt =====
-- `Outbox::send` and `send` as one thread runs them alone, of Capability/Wait.antt, against their
-- interleaved form.
use mathlib.Core.Path.{subst}
use strong_ipc.Prelude.{
  ℕ, ◌+◌, ◌≡◌, ◌⊎◌, refl, sym, ap, ◌∙◌, Option, some, List, [], ◌∷◌, ◌++◌, length-map, arith,
}
use strong_ipc.Io.{IoResult, ok}
use strong_ipc.Message.{Message}
use strong_ipc.Wire.Send.{Sockets, send_now}
use strong_ipc.Channel.{
  Mpsc, Lane, Reserved, granted, refused, parked, lane_reserve, lane_permit_send,
}
use strong_ipc.Outbox.{Outbox, claim, poll_reserve, use_permit, fetch_add}
use strong_ipc.Capability.Wait.{Sending, finished, gave_up, waits, after_reserve, outbox_send}
use strong_ipc.Traffic.{Sent, idle, waiting, Thread, tag, Shared, Act}
use strong_ipc.Traffic.Delivery.{payload_of}
use strong_ipc.Traffic.Alone.{erase, map-append, Alike, here, next, Returns}

lane_reserve-erase :
    (q : Lane Sent)
    → ((lane_reserve (erase q)).0 ≡ (lane_reserve q).0)
      × ((lane_reserve (erase q)).1 ≡ erase (lane_reserve q).1)
lane_reserve-erase q = ground (arith, length-map payload_of q.queued)

lane_permit_send-erase :
    (m : Sent) (q : Lane Sent)
    → lane_permit_send (payload_of m) (erase q) ≡ erase (lane_permit_send m q)
lane_permit_send-erase m q = ground (arith, map-append q.queued m)

-- Where a thread stands with message `m` after a poll of `send` in its call `n`.
abbrev pub after_poll : Sending → Sent → ℕ → Thread
after_poll finished m n = record { pc = idle; next = n + 1 }
after_poll (gave_up _) m n = record { pc = idle; next = n + 1 }
after_poll (waits _) m n = record { pc = waiting m; next = n }

module _ (s : Sockets) (c : Mpsc Message) (k : Mpsc Sent)
    (register : s.World → IoResult Unit × s.World) where
  open s use {World}

  module _ (i : ℕ) (m : Sent) where
    reserve-erase :
        (p : Outbox c) (o : Outbox k)
        → c.view p.sender ≡ erase (k.view o.sender)
        → ((c.reserve p.sender).0 ≡ (k.reserve o.sender).0)
          × (c.view (c.reserve p.sender).1 ≡ erase (k.view (k.reserve o.sender).1))
    reserve-erase p o h =
        let (a, b) = c.reserve_law p.sender in
        let (d, e) = k.reserve_law o.sender in
        let (f, g) = lane_reserve-erase (k.view o.sender) in
        (
          a ∙ (ap (λ q. (lane_reserve q).0) h ∙ (f ∙ sym d)),
          b ∙ (ap (λ q. (lane_reserve q).1) h ∙ (g ∙ ap erase (sym e))),
        )

    -- A poll of `Outbox::send`, by a thread that waits with its message.
    pub outbox_send-Returns :
        (p : Outbox c) (o : Outbox k) (sh : Shared k) (t : Thread)
        → Alike c k (some p) (some o)
        → sh.outbox ≡ some o
        → t.pc ≡ waiting m
        → let r = outbox_send c m.message p in
          Returns c k i sh t sh.wire (some r.1) (after_poll r.0 m t.next)
    unfolding outbox_send poll_reserve claim use_permit
    outbox_send-Returns p o sh t h e q =
        subst (λ x. Polled (x, p₁)) (sym (reserve-erase p o h.0).0) (go (k.reserve o.sender).0 refl)
      where
        p₁ : Outbox c
        p₁ = record p { sender = (c.reserve p.sender).1 }

        Polled : Reserved × Outbox c → Type 0
        Polled y =
            let r = after_reserve c m.message y in
            Returns c k i sh t sh.wire (some r.1) (after_poll r.0 m t.next)

        filled :
            c.view (c.permit_send m.message p₁.sender)
            ≡ erase (k.view (k.permit_send m (k.reserve o.sender).1))
        filled =
            c.view-permit_send m.message p₁.sender
            ∙ (ap (lane_permit_send m.message) (reserve-erase p o h.0).1
                ∙ (lane_permit_send-erase m (k.view (k.reserve o.sender).1)
                    ∙ ap erase (sym (k.view-permit_send m (k.reserve o.sender).1))))

        go : (r : Reserved) → (k.reserve o.sender).0 ≡ r → Polled (r, p₁)
        go granted a = record {
          last = _;
          steps =
              next (Act.reserve_granted m o q e a)
                (next (Act.permit_claim m _ refl refl) (next (Act.permit_fill m _ refl refl) here));
          alike = (filled, ap fetch_add h.1);
          on_wire = refl;
        }
        go refused a = record {
          last = _;
          steps = next (Act.reserve_closed m o q e a) here;
          alike = ((reserve-erase p o h.0).1, h.1);
          on_wire = refl;
        }
        go parked a = record {
          last = _;
          steps = next (Act.reserve_parked m o q e a) here;
          alike = ((reserve-erase p o h.0).1, h.1);
          on_wire = refl;
        }

  module _ (i fd : ℕ) (m : Message) (w : World) (sh : Shared k) (t : Thread) where
    -- A poll that leads to `r`, and what it does to the wire: nothing, or the kernel took the message.
    abbrev pub Advances : Sending × Option (Outbox c) × World → Type 0
    Advances r =
        (wire : List Sent) × Returns c k i sh t wire r.1 (after_poll r.0 (tag i t m) t.next)
        × ((wire ≡ sh.wire)
            ⊎ ((wire ≡ sh.wire ++ (tag i t m ∷ []))
                × (r.0 ≡ finished)
                × (send_now s fd m w ≡ (ok tt, r.2))))
