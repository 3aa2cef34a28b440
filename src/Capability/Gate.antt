-- ===== src/Capability/Gate.antt =====
-- The tests by which `Ref::try_send` (src/capability.rs) chooses its way, over any channel.
use strong_ipc.Prelude.{Bool, false, not, ◌&&◌, Option, none, some, length, leb, ltb}
use strong_ipc.Message.{Message, payload, fds}
use strong_ipc.Wire.Sizes.{max_fds, max_message_size}
use strong_ipc.Channel.{Mpsc}
use strong_ipc.Outbox.{Outbox, is_backed_up}

-- `message.data().len() > wire::MAX_MESSAGE_SIZE`
abbrev pub is_too_large : Message → Bool
is_too_large m = ltb max_message_size (length (payload m))

module _ {M : Type 0} (k : Mpsc M) where
  -- `self.inner.outbox.get().is_some_and(Outbox::is_backed_up)`
  unfoldable pub backlog : Option (Outbox k) → Bool
  unfolding is_backed_up
  backlog none = false
  backlog (some o) = is_backed_up k o

  -- `message.fds().len() <= wire::MAX_FDS && !backed_up`
  unfoldable pub inline_ok : Message → Option (Outbox k) → Bool
  unfolding backlog
  inline_ok m o = leb (length (fds m)) max_fds && not (backlog o)
