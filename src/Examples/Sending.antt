-- ===== src/Examples/Sending.antt =====
-- How examples/ordering.rs sends: each numbered message is offered to `try_send` until it is taken, the
-- drain task and the receiver running in between. `yield_now` is what the other tasks do to the outbox
-- and the kernel while this one waits for its turn.
pub mod Laws
use strong_ipc.Prelude.{ℕ, zero, suc, ◌+◌, Option, none, some}
use strong_ipc.Io.{IoResult}
use strong_ipc.Message.{Ref, Message, from_data, add_ref}
use strong_ipc.Error.{TrySendError}
use strong_ipc.Wire.Send.{Sockets}
use strong_ipc.Channel.{Mpsc}
use strong_ipc.Outbox.{Outbox}
use strong_ipc.Capability.Send.{done, failed, Result, try_send}
use strong_ipc.Examples.Ordering.{sequenced, u64}

-- Message `seq`, with one capability
unfoldable pub numbered : ℕ → Ref → Message
unfolding sequenced from_data add_ref
numbered seq cap = add_ref (from_data (sequenced seq)) cap

module _ (s : Sockets) (k : Mpsc Message) (register : s.World → IoResult Unit × s.World) where
  open s use {World}

  -- How the loop ends: with the count of refusals, or in a panic because the peer is gone, or in the arm
  -- that is marked as unreachable.
  pub data Ended : Type 0 where
    accepted : ℕ → Option (Outbox k) → World → Ended
    peer_closed : Ended
    reached : Ended

  module _ (yield_now : Option (Outbox k) → World → Option (Outbox k) × World) where
    abbrev pub after_yield :
        (Message → ℕ → Option (Outbox k) → World → Option Ended)
        → Message
        → ℕ
        → Option (Outbox k) × World
        → Option Ended
    after_yield again m queue_full (o, w) = again m (u64 (queue_full + 1)) o w

    abbrev pub after_try :
        (Message → ℕ → Option (Outbox k) → World → Option Ended)
        → ℕ
        → Result s k register
        → Option Ended
    after_try again queue_full (done, o, w) = some (accepted queue_full o w)
    after_try again queue_full (failed (TrySendError.full m), o, w) =
        after_yield again m queue_full (yield_now o w)
    after_try again queue_full (failed (TrySendError.closed m), o, w) = some peer_closed
    after_try again queue_full (failed (TrySendError.too_large m), o, w) = some reached

    -- The inner loop of `main`; `none` where the fuel does not suffice.
    pub send_loop : ℕ → ℕ → Message → ℕ → Option (Outbox k) → World → Option Ended
    unfolding try_send
    send_loop zero fd m queue_full o w = none
    send_loop (suc n) fd m queue_full o w =
        after_try (send_loop n fd) queue_full (try_send s k register fd m o w)
