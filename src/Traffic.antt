-- ===== src/Traffic.antt =====
-- Any number of threads that call `Ref::try_send` and `Ref::send` on clones of one `Ref`
-- (src/capability.rs, src/outbox.rs), with the drain task, interleaved at each access to what they
-- share: the pending counter, the channel, the socket. The kernel and the scheduler choose: a step is
-- a relation.
pub mod Order
pub mod Line
pub mod Count
pub mod Calls
pub mod Invariant
pub mod Safety
pub mod Progress
pub mod Delivery
pub mod Alone
mod Tests
use strong_ipc.Prelude.{
  ℕ, ◌+◌, ◌<◌, ◌≡◌, Bool, true, false, not, ◌&&◌, Option, none, some, List, [], ◌∷◌, ◌++◌, length,
  leb, ltb,
}
use strong_ipc.Prelude.Family.{put}
use strong_ipc.Message.{Message}
use strong_ipc.Capability.Gate.{is_too_large, inline_ok}
use strong_ipc.Channel.{Mpsc, Tried, granted, refused, parked}
use strong_ipc.Outbox.{
  Outbox, Drain, absent, receiving, holding, sent_one, broken, closing, stopped, build,
  is_backed_up, claim, release, offer, poll_reserve, use_permit, take_next, drop_receiver,
}

-- A message with the thread that sends it and the number of that thread's call.
pub record Sent : Type 0 where
  pub sender : ℕ
  pub seq : ℕ
  pub message : Message

-- Where a thread stands in a call. All but `idle` have the call's message in hand.
pub data Pc : Type 0 where
  idle : Pc
  checked : Sent → Pc  -- past the size check, before `is_backed_up`
  loaded : Bool → Sent → Pc  -- `inline_ok` is computed, before `send_now`
  backed : Sent → Pc  -- before `self.inner.outbox()`
  pushing : Sent → Pc  -- in `push`, before `fetch_add`
  claimed : Sent → Pc  -- in `push`, before the channel's `try_send`
  bounced : Bool → Sent → Pc  -- the channel gave the message back (full?), before `fetch_sub`
  waiting : Sent → Pc  -- `try_send` was `Full`: in `reserve` of `Outbox::send`
  permitted : Sent → Pc  -- has the permit, before `fetch_add`
  filling : Sent → Pc  -- before `permit.send`

pub record Thread : Type 0 where
  pub pc : Pc
  pub next : ℕ

-- A call that begins with `Message` `m`, and one that has returned.
abbrev pub tag : ℕ → Thread → Message → Sent
tag i t m = record { sender = i; seq = t.next; message = m }

abbrev pub at : Thread → Pc → Thread
at t p = record t { pc = p }

abbrev pub finish : Thread → Thread
finish t = record { pc = idle; next = t.next + 1 }

module _ (k : Mpsc Sent) where
  -- What the threads and the drain task share: the `OnceLock`, the task, and the socket's messages in
  -- the order in which the kernel took them.
  pub record Shared : Type 0 where
    pub outbox : Option (Outbox k)
    pub drain : Drain Sent
    pub wire : List Sent

  abbrev pub with_outbox : Shared → Outbox k → Shared
  with_outbox sh o = record sh { outbox = some o }

  abbrev pub deliver : Shared → Sent → Shared
  deliver sh m = record sh { wire = sh.wire ++ (m ∷ []) }

  -- One access of thread `i`.
  pub data Act (i : ℕ) (sh : Shared) (t : Thread) : Shared → Thread → Type 0 where
    -- `try_send`
    begin :
        (m : Message)
        → t.pc ≡ idle
        → is_too_large m ≡ false
        → Act i sh t sh (at t (checked (tag i t m)))
    too_large : (m : Message) → t.pc ≡ idle → is_too_large m ≡ true → Act i sh t sh (finish t)
    load :
        (m : Sent)
        → t.pc ≡ checked m
        → Act i sh t sh (at t (loaded (inline_ok k m.message sh.outbox) m))
    -- `send_now` returned `Ok`, `WouldBlock`, or any other error.
    inline_sent : (m : Sent) → t.pc ≡ loaded true m → Act i sh t (deliver sh m) (finish t)
    inline_blocked : (m : Sent) → t.pc ≡ loaded true m → Act i sh t sh (at t (backed m))
    inline_failed : (m : Sent) → t.pc ≡ loaded true m → Act i sh t sh (finish t)
    skip_inline : (m : Sent) → t.pc ≡ loaded false m → Act i sh t sh (at t (backed m))
    -- `RefInner::outbox`. Who loses the race to set it drops an outbox that nobody saw, and finds
    -- the other's.
    build_first :
        (m : Sent)
        → t.pc ≡ backed m
        → sh.outbox ≡ none
        → Act i sh t (record sh { outbox = some (build k); drain = receiving }) (at t (pushing m))
    build_found :
        (m : Sent) (o : Outbox k)
        → t.pc ≡ backed m
        → sh.outbox ≡ some o
        → Act i sh t sh (at t (pushing m))
    build_failed : (m : Sent) → t.pc ≡ backed m → sh.outbox ≡ none → Act i sh t sh (finish t)
    -- `Outbox::push`
    push_claim :
        (m : Sent) (o : Outbox k)
        → t.pc ≡ pushing m
        → sh.outbox ≡ some o
        → Act i sh t (with_outbox sh (claim k o)) (at t (claimed m))
    push_sent :
        (m : Sent) (o : Outbox k)
        → t.pc ≡ claimed m
        → sh.outbox ≡ some o
        → (offer k m o).0 ≡ Tried.sent
        → Act i sh t (with_outbox sh (offer k m o).1) (finish t)
    push_full :
        (m : Sent) (o : Outbox k)
        → t.pc ≡ claimed m
        → sh.outbox ≡ some o
        → (offer k m o).0 ≡ Tried.full m
        → Act i sh t (with_outbox sh (offer k m o).1) (at t (bounced true m))
    push_closed :
        (m : Sent) (o : Outbox k)
        → t.pc ≡ claimed m
        → sh.outbox ≡ some o
        → (offer k m o).0 ≡ Tried.closed m
        → Act i sh t (with_outbox sh (offer k m o).1) (at t (bounced false m))
    -- `try_send` returns `Full` or `Closed`; in `send`, `Full` leads to `Outbox::send`.
    give_back :
        (b : Bool) (m : Sent) (o : Outbox k)
        → t.pc ≡ bounced b m
        → sh.outbox ≡ some o
        → Act i sh t (with_outbox sh (release k o)) (finish t)
    wait_for_room :
        (m : Sent) (o : Outbox k)
        → t.pc ≡ bounced true m
        → sh.outbox ≡ some o
        → Act i sh t (with_outbox sh (release k o)) (at t (waiting m))
    -- `Outbox::send`; its future may be dropped while it waits.
    abandon : (m : Sent) → t.pc ≡ waiting m → Act i sh t sh (finish t)
    reserve_closed :
        (m : Sent) (o : Outbox k)
        → t.pc ≡ waiting m
        → sh.outbox ≡ some o
        → (poll_reserve k o).0 ≡ refused
        → Act i sh t (with_outbox sh (poll_reserve k o).1) (finish t)
    reserve_parked :
        (m : Sent) (o : Outbox k)
        → t.pc ≡ waiting m
        → sh.outbox ≡ some o
        → (poll_reserve k o).0 ≡ parked
        → Act i sh t (with_outbox sh (poll_reserve k o).1) (at t (waiting m))
    reserve_granted :
        (m : Sent) (o : Outbox k)
        → t.pc ≡ waiting m
        → sh.outbox ≡ some o
        → (poll_reserve k o).0 ≡ granted
        → Act i sh t (with_outbox sh (poll_reserve k o).1) (at t (permitted m))
    permit_claim :
        (m : Sent) (o : Outbox k)
        → t.pc ≡ permitted m
        → sh.outbox ≡ some o
        → Act i sh t (with_outbox sh (claim k o)) (at t (filling m))
    permit_fill :
        (m : Sent) (o : Outbox k)
        → t.pc ≡ filling m
        → sh.outbox ≡ some o
        → Act i sh t (with_outbox sh (use_permit k m o)) (finish t)

  -- One access of the drain task. A `WouldBlock` in `Reactive::send` changes nothing.
  pub data Pump (sh : Shared) : Shared → Type 0 where
    drain_take :
        (m : Sent) (o : Outbox k)
        → sh.drain ≡ receiving
        → sh.outbox ≡ some o
        → (take_next k o).0 ≡ some m
        → Pump sh (record sh { outbox = some (take_next k o).1; drain = holding m })
    drain_sent :
        (m : Sent)
        → sh.drain ≡ holding m
        → Pump sh (record sh { wire = sh.wire ++ (m ∷ []); drain = sent_one })
    drain_failed : (m : Sent) → sh.drain ≡ holding m → Pump sh (record sh { drain = broken })
    drain_settle :
        (o : Outbox k)
        → sh.drain ≡ sent_one
        → sh.outbox ≡ some o
        → Pump sh (record sh { outbox = some (release k o); drain = receiving })
    drain_uncount :
        (o : Outbox k)
        → sh.drain ≡ broken
        → sh.outbox ≡ some o
        → Pump sh (record sh { outbox = some (release k o); drain = closing })
    drain_stop :
        (o : Outbox k)
        → sh.drain ≡ closing
        → sh.outbox ≡ some o
        → Pump sh (record sh { outbox = some (drop_receiver k o); drain = stopped })

  pub record System : Type 0 where
    pub shared : Shared
    pub thread : ℕ → Thread

  pub data Step (n : ℕ) (s : System) : System → Type 0 where
    act :
        (i : ℕ) {sh : Shared} {t : Thread}
        → i < n
        → Act i s.shared (s.thread i) sh t
        → Step n s (record { shared = sh; thread = put s.thread i t })
    pump : {sh : Shared} → Pump s.shared sh → Step n s (record { shared = sh; thread = s.thread })

  -- A fresh `Ref`, which has no outbox.
  abbrev pub init : System
  init = record {
    shared = record { outbox = none; drain = absent; wire = [] };
    thread = λ _. record { pc = idle; next = 0 };
  }

  pub data Reach (n : ℕ) : System → Type 0 where
    start : Reach n init
    later : {s t : System} → Reach n s → Step n s t → Reach n t
