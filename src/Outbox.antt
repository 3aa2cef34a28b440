-- ===== src/Outbox.antt =====
-- src/outbox.rs: the backlog that a `Ref` grows once its socket has backed up. The operations are
-- written over any channel with the laws of Channel.antt, and over the type `M` of what is queued.
pub mod View
pub mod Close
use strong_ipc.Prelude.{ℕ, ◌+◌, ◌-◌, ◌^◌, ◌%◌, Bool, not, Option, ◌==◌}
use strong_ipc.Channel.{Mpsc, Tried, sent, full, closed, Reserved}
use strong_ipc.Wire.Sizes.{depth}

-- `AtomicUsize::fetch_add(1)` and `fetch_sub(1)`, which wrap at 64 bits
abbrev pub fetch_add : ℕ → ℕ
fetch_add n = (n + 1) % 2 ^ 64

abbrev pub fetch_sub : ℕ → ℕ
fetch_sub n = (n + 2 ^ 64 - 1) % 2 ^ 64

-- The drain task, between its accesses to shared memory.
pub data Drain (M : Type 0) : Type 0 where
  absent : Drain M  -- no outbox was built, so no task was spawned
  receiving : Drain M  -- at `message_rx.recv()`
  holding : M → Drain M  -- in `socket.send(&message)`
  sent_one : Drain M  -- the send returned `Ok`, before `fetch_sub`
  broken : Drain M  -- the send returned `Err`, before `fetch_sub`
  closing : Drain M  -- after that `fetch_sub`, its receiver not yet dropped
  stopped : Drain M  -- returned: the receiver is dropped

module _ {M : Type 0} (k : Mpsc M) where
  open k use {Chan, channel, try_send, reserve, permit_send, recv, close}

  pub record Outbox : Type 0 where
    pub sender : Chan
    pub pending : ℕ

  -- `Outbox::build`, its socket registered, where a runtime is given or entered; `Handle::current` panics
  -- where none is.
  unfoldable pub build : Outbox
  build = record { sender = channel depth; pending = 0 }

  unfoldable pub is_backed_up : Outbox → Bool
  is_backed_up o = not (o.pending == 0)

  unfoldable pub claim : Outbox → Outbox
  claim o = record o { pending = fetch_add o.pending }

  unfoldable pub release : Outbox → Outbox
  release o = record o { pending = fetch_sub o.pending }

  -- The channel call of `push`, after its claim
  unfoldable pub offer : M → Outbox → Tried M × Outbox
  offer m o = let (r, c) = try_send m o.sender in (r, record o { sender = c })

  abbrev pub settle : Tried M × Outbox → Tried M × Outbox
  settle (sent, o) = (sent, o)
  settle (full m, o) = (full m, release o)
  settle (closed m, o) = (closed m, release o)

  -- `Outbox::push`
  unfoldable pub push : M → Outbox → Tried M × Outbox
  unfolding claim release offer
  push m o = settle (offer m (claim o))

  -- One poll of the `reserve` of `Outbox::send`
  unfoldable pub poll_reserve : Outbox → Reserved × Outbox
  poll_reserve o = let (r, c) = reserve o.sender in (r, record o { sender = c })

  -- `permit.send(message)`
  unfoldable pub use_permit : M → Outbox → Outbox
  use_permit m o = record o { sender = permit_send m o.sender }

  -- The `recv` of `drain`, when a message is there
  unfoldable pub take_next : Outbox → Option M × Outbox
  take_next o = let (r, c) = recv o.sender in (r, record o { sender = c })

  -- `drain` returns: its receiver is dropped.
  unfoldable pub drop_receiver : Outbox → Outbox
  drop_receiver o = record o { sender = close o.sender }
