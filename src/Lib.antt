-- ===== src/Lib.antt =====
-- strong-ipc: capabilities over AF_UNIX SOCK_SEQPACKET sockets. A `Ref` is the authority to send to one
-- node, a `Node` feeds a handler from its socket, and a capability is handed on as a descriptor.
--
-- The parts, and the files that model them:
--   src/wire.rs        Wire: Sizes (constants), Limits (descriptor limits), Send (`send_now`), Recv
--                      (`recv_now`), Reactive (the retry loop, `is_hung_up`), Hangup (`hangup`),
--                      Setup (`socketpair`, `bind`, `connect`, `accept_now`, `enable_credentials`,
--                      `Reactive::new`, `accept`)
--   src/message.rs     Message: payload and descriptors
--   src/error.rs       Error; Io has what it uses of std::io
--   src/outbox.rs      Outbox, each access to the counter and the channel a definition; Close is
--                      `drain` after the last `Ref` is dropped; Channel is the interface of tokio's
--                      mpsc channel
--   src/capability.rs  Capability: Gate (the tests of `try_send`), Send (`try_send` as one thread runs
--                      it), Wait (`send`, poll by poll), Lazy (`RefInner::outbox`, `death_watch`),
--                      Registry (`REFS`, `from_fd`, clone, release, `RefInner::drop`, equality and
--                      hashing), Watch (`is_dead`, `death_notification`)
--                      Binding: `RefFsBinding`, any number of bindings to one path, and in its child
--                      Accept the accept loop and `Ref::connect`, in New `new` run alone,
--                      in Races and Recovery what comes of a drop beside it and after it
--   both of these      Traffic: any number of threads in `try_send` and `send` on clones of one `Ref`,
--                      and the drain task, interleaved at each shared access; Delivery joins them to the
--                      receive loop, and Alone to the sequential `try_send`, `send` and `drain`
--   src/node.rs        Node: `recv_loop`, and in its children Build (`new_raw`) and Life (the handle, the
--                      task and its end, `to_service`)
--   src/local.rs       Local: `LocalEntry`, `local_handler`; Shards is the interface of DashMap
--   src/death.rs       Death: the latch, with any number of waiters
--   examples           Examples: Ordering (the checker of ordering.rs
--                      and, in Tail, the end of its `main`, with Torn where a call of the
--                      handler is under way), Echo (the server of bench.rs),
--                      Slots (the stamps of timeline.rs), Variants (the servers of timeline.rs and
--                      fdcost.rs), Sending (the loop of ordering.rs that sends), Replies (the clients'
--                      handlers, and the servers that answer once), Connecting (`connect_with_retry`),
--                      Stages (the client's loop of timeline.rs), Frames (that of paced.rs),
--                      Exchange (the raw system calls of fdcost.rs), Ceiling (the payload ceiling of
--                      bench.rs, from `try_send` to the answer), Proc (what bench.rs and paced.rs
--                      read of /proc), Stats (`summarize` and `histogram`), Watch (`FdWatch` of
--                      bench.rs and the timed loops of `latency` and `throughput`), Between (what
--                      bench.rs does between its phases), Raw (the raw server and the payload of
--                      paced.rs), Rung (the timed raw rounds of fdcost.rs)
-- Proofs stand in the child modules of the part that they are about: Laws, or the name of what they
-- show. Tests hold small runs to which the theorems are applied.
--
-- How they interact: `try_send` puts a message on the socket by `send_now`, or into the outbox, whose
-- drain task sends it by the same `send_now`; at the other end `recv_now` unpacks it and `recv_loop`
-- hands it to the handler, who makes a `Ref` of a descriptor by `from_fd`. The receive loop's end drops
-- the tombstone of Death and the entry of Local. `Node::new_raw` puts Registry and Local together;
-- `RefFsBinding` hands its node's capability to each connection, which `Ref::connect` takes out of the
-- message by `recv_now` and `from_fd`.
--
-- What is outside the repository is an interface, a record of operations with the laws that the
-- code relies on: Channel.Mpsc, Shards.DashMap, Death.Notify, Wire.Send.Sockets,
-- Wire.Limits.Resource, Wire.Setup.Kernel, Binding.Paths.Files, Node.Buffers,
-- Examples.Connecting.Surroundings, Examples.Exchange.Syscalls. Each has an instance, in its own
-- file or among the tests. Examples.Proc and Examples.Stats take `str::parse`, `sort_unstable` and the
-- floating-point arithmetic (f64, the rounded index of a percentile, the logarithms) as parameters.
--
-- Bounds: `usize` and `u64` have 64 bits, the pending counter wraps at 2 ^ 64, and Traffic has
-- fewer than 2 ^ 63 threads. The retry loop takes fuel; under a measure that each blocked round
-- lowers, more fuel than that measure is enough. The hang-up loop takes fuel too: more than the
-- number of spurious reports is enough, and so do `drain` (more than the length of its queue is
-- enough, and a send of it that never comes to an end is an outcome of its own) and the loop that
-- sends, which a full queue can keep for ever. 251 rounds are enough for `connect_with_retry`,
-- since each round but the last sleeps 20 of its 5000 milliseconds; an attempt that never comes to
-- an end is an outcome of its own there too. Atomic accesses are taken as sequentially consistent.
-- The order of messages on one socket is the order in which the kernel takes them.
--
-- Assumed: a tokio runtime is entered wherever an outbox or a node is built, since
-- `Handle::current` and `tokio::spawn` panic outside one. The directory of a bound path lets the
-- process remove its names, bind(2) fails only on a name that exists, and listen(2) does not fail
-- behind it (Binding.Paths). The descriptors of a received message are those that the kernel hands
-- over; what it cuts off of the ancillary data is not seen. A call of a handler is over before the
-- next receive of its node.
--
-- Not modelled: the constant arguments of the system calls other than the ancillary buffer's size and
-- the flags; how the examples warm up, pace themselves by the wall clock and print what they measure, and the
-- processes they spawn; the tests.
pub mod Prelude
pub mod Io
pub mod Message
pub mod Error
pub mod Wire
pub mod Channel
pub mod Shards
pub mod Outbox
pub mod Capability
pub mod Traffic
pub mod Node
pub mod Local
pub mod Examples
pub mod Binding
pub mod Death
