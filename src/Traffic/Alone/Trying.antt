-- ===== src/Traffic/Alone/Trying.antt =====
-- `try_send` of Capability/Send.antt, against its interleaved form.
use strong_ipc.Prelude.{ℕ, ◌≡◌, ◌⊎◌, Bool, List, [], ◌∷◌, ◌++◌}
use strong_ipc.Io.{IoResult, ok}
use strong_ipc.Message.{Message}
use strong_ipc.Wire.Send.{Sockets, send_now}
use strong_ipc.Channel.{Mpsc, Tried}
use strong_ipc.Outbox.{Outbox}
use strong_ipc.Capability.Send.{done, Result}
use strong_ipc.Traffic.{Sent, Thread, tag, Shared}
use strong_ipc.Traffic.Delivery.{payload_of}
use strong_ipc.Traffic.Alone.{where_to, next, Returns}

abbrev erase_tried : Tried Sent → Tried Message
erase_tried Tried.sent = Tried.sent
erase_tried (Tried.full m) = Tried.full (payload_of m)
erase_tried (Tried.closed m) = Tried.closed (payload_of m)

module _ (s : Sockets) (c : Mpsc Message) (k : Mpsc Sent)
    (register : s.World → IoResult Unit × s.World) where
  open s use {World}

  -- What a call does to the wire: nothing, or the kernel took the message at once.
  abbrev pub Puts :
      ℕ → Message → World → List Sent → Sent → Result s c register → List Sent → Type 0
  Puts fd m w before sent_as (t, p, u) after =
      (after ≡ before)
      ⊎ ((after ≡ before ++ (sent_as ∷ [])) × (t ≡ done) × (send_now s fd m w ≡ (ok tt, u)))

  abbrev pub Refines :
      ℕ → Bool → ℕ → Message → World → Shared k → Thread → Result s c register → Type 0
  Refines i in_send fd m w sh t r =
      (wire : List Sent) × Returns c k i sh t wire r.1 (where_to r.0 in_send (tag i t m) t.next)
      × Puts fd m w sh.wire (tag i t m) r wire

  module _ (i : ℕ) (in_send : Bool) (fd : ℕ) (m : Message) (w : World) (sh : Shared k)
      (t : Thread) where
    sent_as : Sent
    sent_as = tag i t m
