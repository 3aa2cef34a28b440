-- ===== src/Capability/Send.antt =====
-- `RefInner::outbox` and `Ref::try_send` of src/capability.rs as one thread runs them, with nobody in
-- between; Traffic.antt has the interleavings. What the `Ref` shares with its clones is its `OnceLock`
-- for the outbox; the state of kernel and runtime is threaded through. A runtime is entered wherever the
-- outbox may have to be built: outside one `Handle::current` panics there, which is not modelled.
pub mod Laws
use strong_ipc.Prelude.{ℕ, Option, none, some, if◌then◌else◌}
use strong_ipc.Io.{IoError, IoResult, ok, err}
use strong_ipc.Message.{Message}
use strong_ipc.Error.{TrySendError}
use strong_ipc.Wire.Send.{Sockets, send_now}
use strong_ipc.Wire.Reactive.{is_would_block}
use strong_ipc.Channel.{Mpsc, Tried, sent, full, closed}
use strong_ipc.Outbox.{Outbox, build, push}
use strong_ipc.Capability.Gate.{is_too_large, inline_ok}

-- `Result<(), TrySendError>`
pub data TrySend : Type 0 where
  done : TrySend
  failed : TrySendError → TrySend

-- `register` is what can fail in `Outbox::build`: the `dup` of the socket and its registration with
-- the reactor.
module _ (s : Sockets) (k : Mpsc Message) (register : s.World → IoResult Unit × s.World) where
  open s use {World}

  abbrev pub Result : Type 0
  Result = TrySend × Option (Outbox k) × World

  abbrev pub settled : Tried Message × Outbox k → World → Result
  settled (sent, o) w = (done, some o, w)
  settled (full m, o) w = (failed (TrySendError.full m), some o, w)
  settled (closed m, o) w = (failed (TrySendError.closed m), some o, w)

  abbrev pub build_then_push : Message → IoResult Unit × World → Result
  build_then_push m (err e, w) = (failed (TrySendError.closed m), none, w)
  build_then_push m (ok _, w) = settled (push k m (build k)) w

  -- `self.inner.outbox()`, then `outbox.push(message)`
  unfoldable pub queue_up : Message → Option (Outbox k) → World → Result
  unfolding build push
  queue_up m none w = build_then_push m (register w)
  queue_up m (some o) w = settled (push k m o) w

  abbrev pub after_inline : Message → Option (Outbox k) → IoResult Unit × World → Result
  after_inline m o (ok _, w) = (done, o, w)
  after_inline m o (err e, w) =
      if is_would_block e.kind then queue_up m o w else (failed (TrySendError.closed m), o, w)

  -- `Ref::try_send`, on the socket `fd`
  unfoldable pub try_send : (fd : ℕ) → Message → Option (Outbox k) → World → Result
  unfolding queue_up inline_ok
  try_send fd m o w =
      if is_too_large m
      then (failed (TrySendError.too_large m), o, w)
      else if inline_ok k m o
      then after_inline m o (send_now s fd m w)
      else queue_up m o w
