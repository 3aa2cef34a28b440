-- ===== src/Capability/Wait/Laws.antt =====
-- When `send` waits, and where a message that it has waited with ends up.
use strong_ipc.Prelude.{
  ℕ, ◌<◌, ◌^◌, ◌≡◌, refl, true, false, Option, none, some, [], ◌∷◌, ◌++◌, arith,
}
use strong_ipc.Io.{IoResult}
use strong_ipc.Message.{Message}
use strong_ipc.Error.{SendError, TrySendError, into_message, widen}
use strong_ipc.Wire.Send.{Sockets}
use strong_ipc.Channel.{Mpsc, has_room, Reserved, granted, refused, parked}
use strong_ipc.Outbox.{Outbox, fetch_add}
use strong_ipc.Outbox.View.{lane_of, queue_of, pending_of}
use strong_ipc.Capability.Send.{done, failed, Result, try_send}
use strong_ipc.Capability.Send.Laws.{Outcome, try_send-Outcome}
use strong_ipc.Capability.Wait.{
  Sending, finished, gave_up, waits, outbox_send, after_reserve, after_try, send, wait_for_room,
  wait_in,
}

module _ (k : Mpsc Message) where
  -- What a poll of `Outbox::send` says of the outbox before and after.
  abbrev pub Polled : Message → Outbox k → Sending × Outbox k → Type 0
  Polled m o (finished, o') =
      ((lane_of k (some o)).is_closed ≡ false)
      × (has_room (lane_of k (some o)) ≡ true)
      × (queue_of k (some o') ≡ queue_of k (some o) ++ (m ∷ []))
      × ((lane_of k (some o')).permits ≡ (lane_of k (some o)).permits)
      × (pending_of k (some o') ≡ fetch_add (pending_of k (some o)))
  Polled m o (gave_up e, o') =
      (e ≡ SendError.closed m)
      × ((lane_of k (some o)).is_closed ≡ true)
      × (lane_of k (some o') ≡ lane_of k (some o))
      × (pending_of k (some o') ≡ pending_of k (some o))
  Polled m o (waits x, o') =
      (x ≡ m)
      × ((lane_of k (some o)).is_closed ≡ false)
      × (has_room (lane_of k (some o)) ≡ false)
      × (lane_of k (some o') ≡ lane_of k (some o))
      × (pending_of k (some o') ≡ pending_of k (some o))

  -- A poll of `Outbox::send` that is alone with the outbox queues the message last and counts it exactly
  -- if the channel is open and has room, gives it back as `Closed` exactly if the channel is closed, and
  -- otherwise waits and changes neither the channel nor the counter.
  pub outbox_send-Polled : (m : Message) (o : Outbox k) → Polled m o (outbox_send k m o)
  unfolding outbox_send
  outbox_send-Polled m o = go (k.reserve o.sender).0 refl
    where
      go :
          (r : Reserved)
          → (k.reserve o.sender).0 ≡ r
          → Polled m o (after_reserve k m (r, record o { sender = (k.reserve o.sender).1 }))
      go granted e =
          ground (arith, k.reserve_law o.sender, k.view-permit_send m (k.reserve o.sender).1)
      go refused e = ground (arith, k.reserve_law o.sender)
      go parked e = ground (arith, k.reserve_law o.sender)

module _ (s : Sockets) (k : Mpsc Message) (register : s.World → IoResult Unit × s.World) where
  open s use {World}

  -- How a first poll of `send` stands to `try_send` on the same state.
  abbrev pub First :
      ℕ → Message → Option (Outbox k) → World → Sending × Option (Outbox k) × World → Type 0
  First fd m o w (finished, o', w') = try_send s k register fd m o w ≡ (done, o', w')
  First fd m o w (gave_up e, o', w') =
      (into_message e ≡ m) × (try_send s k register fd m o w ≡ (failed (widen e), o', w'))
  First fd m o w (waits x, o', w') =
      (x ≡ m)
      × ((b : Option (Outbox k)) × (try_send s k register fd m o w
            ≡ (failed (TrySendError.full m), b, w')))
      × (queue_of k o' ≡ queue_of k o)
      × (pending_of k o' ≡ pending_of k o)
      × ((lane_of k o').is_closed ≡ false)
      × (has_room (lane_of k o') ≡ false)

  wait_for_room-First :
      (fd : ℕ) (m x : Message) (o b : Option (Outbox k)) (w w' : World)
      → try_send s k register fd m o w ≡ (failed (TrySendError.full x), b, w')
      → Outcome s k register fd m o w (failed (TrySendError.full x), b, w')
      → First fd m o w (wait_for_room s k register x b w')
  wait_for_room-First fd m x o none w w' e v = absurd (ground arith)
  wait_for_room-First fd m x o (some b) w w' e v = go (outbox_send k x b) (outbox_send-Polled k x b)
    where
      go : (r : Sending × Outbox k) → Polled k x b r → First fd m o w (wait_in s k register w' r)
      go (finished, o') p = absurd (ground arith)
      go (gave_up e, o') p = absurd (ground arith)
      go (waits y, o') p = (
        ground arith,
        (some b, ground arith),
        ground arith,
        ground arith,
        ground arith,
        ground arith,
      )

  -- With a counter below 2 ^ 64, a first poll of `send` that is alone with the `Ref` does what
  -- `try_send` does, with the same error and the message in it, except where `try_send` reports a
  -- full queue: there `send` waits with the message, and queue and counter are as they were. It
  -- never reports a full queue.
  pub send-First :
      (fd : ℕ) (m : Message) (o : Option (Outbox k)) (w : World)
      → pending_of k o < 2 ^ 64
      → First fd m o w (send s k register fd m o w)
  unfolding send into_message widen
  send-First fd m o w h =
      go (try_send s k register fd m o w) refl (try_send-Outcome s k register fd m o w h)
    where
      go :
          (r : Result s k register)
          → try_send s k register fd m o w ≡ r
          → Outcome s k register fd m o w r
          → First fd m o w (after_try s k register r)
      go (done, b, w') e v = e
      go (failed (TrySendError.closed x), b, w') e v = (v.0, e)
      go (failed (TrySendError.too_large x), b, w') e v = (v.0, e)
      go (failed (TrySendError.full x), b, w') e v = wait_for_room-First fd m x o b w w' e v
