-- ===== src/Examples/Ceiling.antt =====
-- The payload ceiling of examples/bench.rs: a message of each of several sizes is offered to `try_send`,
-- and what comes of it is reported. The answer's way leads through the server's receive loop, its
-- handler, and the client's receive loop and handler. What earlier messages left behind has been waited
-- out (`quiesce`), so one message is on its way.
pub mod Laws
mod Tests
use strong_ipc.Prelude.{
  ℕ, zero, suc, Option, none, some, List, [], ◌∷◌, length, ◌==◌, if◌then◌else◌,
}
use strong_ipc.Io.{IoResult, ok}
use strong_ipc.Message.{SocketId, Ref, Message, payload}
use strong_ipc.Error.{TrySendError}
use strong_ipc.Wire.Send.{Sockets}
use strong_ipc.Channel.{Mpsc}
use strong_ipc.Outbox.{Outbox}
use strong_ipc.Capability.Send.{done, failed, Result, try_send}
use strong_ipc.Node.{Datagram, Call, Outcome, Buffers, recv_loop}
use strong_ipc.Shards.{DashMap}
use strong_ipc.Examples.Echo.{Echo, Action, exits, silent, replies, handle}
use strong_ipc.Examples.Replies.{Tally, tally, client_message}

pub data Report : Type 0 where
  refused_at_send : ℕ → Report
  send_failed : TrySendError → Report
  echoed_intact : Report
  came_back_as : ℕ → Report
  channel_closed : Report
  no_reply : Report

-- `vec![0x41u8; payload]`
abbrev pub filled : ℕ → List ℕ
filled zero = []
filled (suc n) = 65 ∷ filled n

-- What `client.rx.recv()` gave within its 500 ms; the outer `none` is the timeout.
abbrev pub on_reply : ℕ → Option (Option ℕ) → Report
on_reply size (some (some n)) = if n == size then echoed_intact else came_back_as n
on_reply size (some none) = channel_closed
on_reply size none = no_reply

module _ (s : Sockets) (k : Mpsc Message) (register : s.World → IoResult Unit × s.World) where
  open s use {World}

  abbrev pub on_send : ℕ → Option (Option ℕ) → Result s k register → Report
  on_send size reply (failed (TrySendError.too_large returned), o, w) =
      refused_at_send (length (payload returned))
  on_send size reply (failed (TrySendError.full m), o, w) = send_failed (TrySendError.full m)
  on_send size reply (failed (TrySendError.closed m), o, w) = send_failed (TrySendError.closed m)
  on_send size reply (done, o, w) = on_reply size reply

  -- One turn of the loop over the sizes
  unfoldable pub probe : (fd : ℕ) → Ref → ℕ → Option (Option ℕ) → Option (Outbox k) → World → Report
  unfolding client_message try_send
  probe fd reply_ref size reply o w =
      on_send size reply (try_send s k register fd (client_message (filled size) 1 reply_ref) o w)

-- The first call that a receive loop makes, if any.
abbrev pub first_call : Outcome → Option Call
first_call ([], _) = none
first_call (c ∷ _, _) = some c

abbrev pub answer_of : Action → Option Message
answer_of exits = none
answer_of silent = none
answer_of (replies fd m) = some m

-- What the client's `ReplyHandler` puts into `rx`.
abbrev pub counted : Tally → Option Call → Option (Option ℕ)
counted t none = none
counted t (some c) = some (some (tally c.bytes t).0)

-- The way of message `m` to the server and back; `dress` is the datagram that a message becomes.
module _ (k : Buffers) (d : DashMap ℕ) (dress : Message → Datagram) where
  abbrev pub arrive : List ℕ → Option Message → Option Call
  arrive buf none = none
  arrive buf (some m) = first_call (recv_loop k buf (ok (dress m) ∷ []))

  abbrev pub answered : (ℕ → Option SocketId) → Echo d → Option Call → Option Message
  answered stat st none = none
  answered stat st (some c) = answer_of (handle d stat c.bytes c.fds st).0

  unfoldable pub reply_to :
      (server_buf client_buf : List ℕ)
      → (ℕ → Option SocketId)
      → Echo d
      → Tally
      → Message
      → Option (Option ℕ)
  unfolding recv_loop handle tally
  reply_to server_buf client_buf stat st t m =
      counted t (arrive client_buf (answered stat st (arrive server_buf (some m))))
