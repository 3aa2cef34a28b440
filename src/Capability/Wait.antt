-- ===== src/Capability/Wait.antt =====
-- `Outbox::send` of src/outbox.rs and `Ref::send` of src/capability.rs, up to where they first wait and
-- from there on, poll by poll, as one thread runs them.
pub mod Laws
use strong_ipc.Prelude.{ℕ, Option, none, some}
use strong_ipc.Io.{IoResult, ok, err}
use strong_ipc.Message.{Message}
use strong_ipc.Error.{SendError, TrySendError}
use strong_ipc.Wire.Send.{Sockets}
use strong_ipc.Channel.{Mpsc, Reserved, granted, refused, parked}
use strong_ipc.Outbox.{Outbox, build, claim, poll_reserve, use_permit}
use strong_ipc.Capability.Send.{TrySend, done, failed, Result, try_send}

-- A poll of `send`: `Ready(Ok(()))`, `Ready(Err(e))`, or `Pending` with the message still in hand.
pub data Sending : Type 0 where
  finished : Sending
  gave_up : SendError → Sending
  waits : Message → Sending

module _ (k : Mpsc Message) where
  abbrev pub after_reserve : Message → Reserved × Outbox k → Sending × Outbox k
  after_reserve m (granted, o) = (finished, use_permit k m (claim k o))
  after_reserve m (refused, o) = (gave_up (SendError.closed m), o)
  after_reserve m (parked, o) = (waits m, o)

  -- `Outbox::send`, one poll
  unfoldable pub outbox_send : Message → Outbox k → Sending × Outbox k
  unfolding poll_reserve use_permit claim
  outbox_send m o = after_reserve m (poll_reserve k o)

module _ (s : Sockets) (k : Mpsc Message) (register : s.World → IoResult Unit × s.World) where
  open s use {World}

  abbrev pub wait_in : World → Sending × Outbox k → Sending × Option (Outbox k) × World
  wait_in w (r, o) = (r, some o, w)

  abbrev pub build_then_send : Message → IoResult Unit × World → Sending × Option (Outbox k) × World
  build_then_send m (err e, w) = (gave_up (SendError.closed m), none, w)
  build_then_send m (ok _, w) = wait_in w (outbox_send k m (build k))

  -- `self.inner.outbox()`, then `outbox.send(message)`
  abbrev pub wait_for_room :
      Message → Option (Outbox k) → World → Sending × Option (Outbox k) × World
  wait_for_room m none w = build_then_send m (register w)
  wait_for_room m (some o) w = wait_in w (outbox_send k m o)

  abbrev pub after_try : Result s k register → Sending × Option (Outbox k) × World
  after_try (done, o, w) = (finished, o, w)
  after_try (failed (TrySendError.closed m), o, w) = (gave_up (SendError.closed m), o, w)
  after_try (failed (TrySendError.too_large m), o, w) = (gave_up (SendError.too_large m), o, w)
  after_try (failed (TrySendError.full m), o, w) = wait_for_room m o w

  -- `Ref::send`, its first poll
  unfoldable pub send :
      (fd : ℕ) → Message → Option (Outbox k) → World → Sending × Option (Outbox k) × World
  unfolding outbox_send
  send fd m o w = after_try (try_send s k register fd m o w)
