-- ===== src/Node.antt =====
-- `recv_loop` of src/node.rs, over the sequence of outcomes of `socket.recv`: what turns datagrams into
-- handler calls. The descriptors of a datagram are those that `recv_now` gave, and a call of the handler is
-- over before the next receive; one that never returns stops the loop.
pub mod Laws
pub mod Life
pub mod Build
pub mod Memory
mod Tests
use strong_ipc.Prelude.{
  ℕ, ◌≤◌, ◌≡◌, Option, some, none, List, [], ◌∷◌, length, take, ◌==◌, if◌then◌else◌,
}
use strong_ipc.Io.{IoError, IoResult, ok, err}
use strong_ipc.Wire.Sizes.{max_message_size}
use strong_ipc.Wire.Recv.{UCred, Received, truncated}

-- A datagram that a peer sent, with what rides along
pub record Datagram : Type 0 where
  pub content : List ℕ
  pub rights : List ℕ
  pub creds : Option UCred

-- The arguments of `Handler::handle`
pub record Call : Type 0 where
  pub bytes : List ℕ
  pub fds : List ℕ
  pub creds : Option UCred

-- What recvmsg(2) writes into a buffer: with MSG_TRUNC it reports the full length and writes as much as
-- fits. `leave` is the buffer after the handler, which may write to its slice.
pub record Buffers : Type 0 where
  pub fill : List ℕ → List ℕ → List ℕ
  pub leave : Call → List ℕ → List ℕ
  pub length-fill : (p b : List ℕ) → length (fill p b) ≡ length b
  pub take-fill : (p b : List ℕ) → length p ≤ length b → take (length p) (fill p b) ≡ p
  pub length-leave : (c : Call) (b : List ℕ) → length (leave c b) ≡ length b

abbrev pub received_of : Datagram → Received
received_of d = record { bytes = length d.content; fds = d.rights; creds = d.creds }

-- The calls that were made, and how the loop ended; `none` while it still waits.
abbrev pub Outcome : Type 0
Outcome = List Call × Option (IoResult Unit)

abbrev pub after : Call → Outcome → Outcome
after c (calls, r) = (c ∷ calls, r)

module _ (k : Buffers) where
  open k use {fill, leave}

  -- `&mut buf[..received.bytes]` and the rest of what arrived
  abbrev pub call_of : Received → List ℕ → Call
  call_of r buf = record { bytes = take r.bytes buf; fds = r.fds; creds = r.creds }

  unfoldable pub recv_loop : List ℕ → List (IoResult Datagram) → Outcome
  unfolding truncated
  recv_loop buf [] = ([], none)
  recv_loop buf (err e ∷ rest) = ([], some (err e))
  recv_loop buf (ok d ∷ rest) =
      let received = received_of d in
      let filled = fill d.content buf in
      let dropped = recv_loop filled rest in
      let call = call_of received filled in
      let handled = after call (recv_loop (leave call filled) rest) in
      if received.bytes == 0
      then ([], some (ok tt))
      else if truncated received (length filled)
      then dropped
      else handled
