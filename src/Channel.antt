-- ===== src/Channel.antt =====
-- What src/outbox.rs uses of tokio's bounded `mpsc` channel: an interface, whose laws are what tokio
-- documents, each stated against a view of the channel as a list with a capacity. Nothing here models
-- tokio's code.
use strong_ipc.Prelude.{
  ℕ, ◌+◌, ◌-◌, ◌≡◌, Bool, true, false, List, [], ◌∷◌, ◌++◌, Option, none, some, length, ltb,
  if◌then◌else◌, refl,
}

-- `queued` holds the oldest message first. A permit is a slot that `reserve` took and that no message
-- fills yet. `is_closed` says that the receiver is gone.
pub record Lane (M : Type 0) : Type 0 where
  pub capacity : ℕ
  pub queued : List M
  pub permits : ℕ
  pub is_closed : Bool

-- `try_send` gives the message back when it fails.
pub data Tried (M : Type 0) : Type 0 where
  sent : Tried M
  full : M → Tried M
  closed : M → Tried M

-- One poll of `reserve`.
pub data Reserved : Type 0 where
  granted refused parked : Reserved

module _ {M : Type 0} where
  abbrev pub lane_new : ℕ → Lane M
  lane_new n = record { capacity = n; queued = []; permits = 0; is_closed = false }

  abbrev pub has_room : Lane M → Bool
  has_room q = ltb (length q.queued + q.permits) q.capacity

  abbrev pub lane_try_send : M → Lane M → Tried M × Lane M
  lane_try_send m q =
      if q.is_closed
      then (closed m, q)
      else if has_room q
      then (sent, record q { queued = q.queued ++ (m ∷ []) })
      else (full m, q)

  abbrev pub lane_reserve : Lane M → Reserved × Lane M
  lane_reserve q =
      if q.is_closed
      then (refused, q)
      else if has_room q
      then (granted, record q { permits = q.permits + 1 })
      else (parked, q)

  -- A message sent on a permit after the receiver is gone is dropped.
  abbrev pub lane_permit_send : M → Lane M → Lane M
  lane_permit_send m q = record q {
    queued = if q.is_closed then q.queued else q.queued ++ (m ∷ []);
    permits = q.permits - 1;
  }

  abbrev pub lane_recv : Lane M → Option M × Lane M
  lane_recv q = elim q.queued [ [] ↦ (none, q) | m ∷ rest ↦ (some m, record q { queued = rest }) ]

  abbrev pub lane_close : Lane M → Lane M
  lane_close q = record q { queued = []; is_closed = true }

pub record Mpsc (M : Type 0) : Type 1 where
  pub Chan : Type 0
  pub view : Chan → Lane M
  pub channel : ℕ → Chan
  pub try_send : M → Chan → Tried M × Chan
  pub reserve : Chan → Reserved × Chan
  pub permit_send : M → Chan → Chan
  pub recv : Chan → Option M × Chan
  pub close : Chan → Chan
  pub view-channel : (n : ℕ) → view (channel n) ≡ lane_new n
  pub try_send_law :
      (m : M) (c : Chan)
      → ((try_send m c).0 ≡ (lane_try_send m (view c)).0)
        × (view (try_send m c).1 ≡ (lane_try_send m (view c)).1)
  pub reserve_law :
      (c : Chan)
      → ((reserve c).0 ≡ (lane_reserve (view c)).0)
        × (view (reserve c).1 ≡ (lane_reserve (view c)).1)
  pub view-permit_send : (m : M) (c : Chan) → view (permit_send m c) ≡ lane_permit_send m (view c)
  pub recv_law :
      (c : Chan)
      → ((recv c).0 ≡ (lane_recv (view c)).0) × (view (recv c).1 ≡ (lane_recv (view c)).1)
  pub view-close : (c : Chan) → view (close c) ≡ lane_close (view c)

-- The laws can be met: a channel that is its own view.
abbrev pub lanes : (M : Type 0) → Mpsc M
lanes M = record {
  Chan = Lane M;
  view = λ q. q;
  channel = lane_new;
  try_send = lane_try_send;
  reserve = lane_reserve;
  permit_send = lane_permit_send;
  recv = lane_recv;
  close = lane_close;
  view-channel = λ n. refl;
  try_send_law = λ m c. (refl, refl);
  reserve_law = λ c. (refl, refl);
  view-permit_send = λ m c. refl;
  recv_law = λ c. (refl, refl);
  view-close = λ c. refl;
}
