-- ===== src/Traffic/Tests.antt =====
-- Schedules of two threads over a channel of lists, and the theorems applied to them.
use strong_ipc.Prelude.{
  Option, ℕ, zero, suc, ◌+◌, ◌≤◌, ◌≡◌, ◌⊎◌, refl, false, some, none, map, [], ◌∷◌, arith, length,
  ℕ_discrete,
}
use strong_ipc.Message.{Message, payload}
use strong_ipc.Io.{IoResult, ok, err, from_kind, broken_pipe}
use strong_ipc.Node.{Datagram, recv_loop}
use strong_ipc.Node.Laws.{whole}
use strong_ipc.Node.Memory.{memory, zeros, length-zeros}
use strong_ipc.Traffic.Delivery.{payload_of, handled_in_order}
use strong_ipc.Channel.{Mpsc, Tried, lanes}
use strong_ipc.Wire.Sizes.{depth, max_message_size}
use strong_ipc.Outbox.{
  holding, stopped, build, is_backed_up, claim, release, offer, take_next, drop_receiver, Outbox,
  absent,
}
use strong_ipc.Outbox.View.{pending_of, queue_of}
use strong_ipc.Traffic.{
  Sent, Shared, Thread, idle, Act, System, Reach, start, later, act, pump, drain_take, drain_sent,
  drain_settle, drain_uncount, drain_failed, drain_stop,
}
use strong_ipc.Capability.Gate.{inline_ok}
use strong_ipc.Traffic.Order.{Ordered}
use strong_ipc.Traffic.Line.{line}
use strong_ipc.Traffic.Count.{busy}
use strong_ipc.Traffic.Invariant.{claims}
use strong_ipc.Traffic.Safety.{Grows, sender_order, pending_counts, Step-Grows, stopped_forever}

abbrev k : Mpsc Sent
k = lanes Sent

abbrev note : ℕ → Message
note b = record { data_bytes = b ∷ []; fd_list = [] }

abbrev first : Sent
first = record { sender = 0; seq = 0; message = note 7 }

abbrev second : Sent
second = record { sender = 1; seq = 0; message = note 8 }

abbrev third : Sent
third = record { sender = 0; seq = 1; message = note 9 }

abbrev empty : Shared k
empty = record { outbox = none; drain = absent; wire = [] }

abbrev idler : Thread
idler = record { pc = idle; next = 0 }

record Run : Type 0 where
  last : System k
  reach : Reach k 2 last

-- Thread 0 finds the socket full and queues; thread 1 sees the backlog and queues behind it.
queued_two : Run
unfolding build claim offer is_backed_up inline_ok ℕ_discrete
queued_two = record {
  last = _;
  reach =
      later
        (later
          (later
            (later
              (later
                (later
                  (later
                    (later
                      (later
                        (later
                          (later (later start (act 0 (omega arith) (Act.begin (note 7) refl refl)))
                            (act 0 (omega arith) (Act.load first refl)))
                          (act 0 (omega arith) (Act.inline_blocked first refl)))
                        (act 0 (omega arith) (Act.build_first first refl refl)))
                      (act 1 (omega arith) (Act.begin (note 8) refl refl)))
                    (act 0 (omega arith) (Act.push_claim first _ refl refl)))
                  (act 1 (omega arith) (Act.load second refl)))
                (act 0 (omega arith) (Act.push_sent first _ refl refl refl)))
              (act 1 (omega arith) (Act.skip_inline second refl)))
            (act 1 (omega arith) (Act.build_found second _ refl refl)))
          (act 1 (omega arith) (Act.push_claim second _ refl refl)))
        (act 1 (omega arith) (Act.push_sent second _ refl refl refl));
}

queued_two_line : queue_of k queued_two.last.shared.outbox ≡ first ∷ second ∷ []
unfolding queued_two
queued_two_line = refl

-- The drain task has put the first of the two on the wire, and counted it off.
one_out : Run
unfolding queued_two take_next release
one_out = record {
  last = _;
  reach =
      later
        (later (later queued_two.reach (pump (drain_take first _ refl refl refl)))
          (pump (drain_sent first refl)))
        (pump (drain_settle _ refl refl));
}

-- It has put both there, and waits.
all_out : Run
unfolding one_out
all_out = record {
  last = _;
  reach =
      later
        (later (later one_out.reach (pump (drain_take second _ refl refl refl)))
          (pump (drain_sent second refl)))
        (pump (drain_settle _ refl refl));
}

all_out_wire : all_out.last.shared.wire ≡ first ∷ second ∷ []
unfolding all_out
all_out_wire = refl

-- `queued_two` with the first message in the drain task's hand.
abbrev taken : Shared k → Shared k
taken sh = record {
  outbox = some (record {
    sender = record { capacity = 8; queued = second ∷ []; permits = 0; is_closed = false };
    pending = 2;
  });
  drain = holding first;
  wire = sh.wire;
}

-- Thread 0 sends again, inline now: the message stands behind its first one.
again : Run
unfolding all_out
again = record {
  last = _;
  reach =
      later
        (later (later all_out.reach (act 0 (omega arith) (Act.begin (note 9) refl refl)))
          (act 0 (omega arith) (Act.load third refl)))
        (act 0 (omega arith) (Act.inline_sent third refl));
}

sender_order_example : Ordered (first ∷ second ∷ third ∷ [])
unfolding again
sender_order_example = sender_order k (omega arith) again.reach

pending_counts_example :
    (pending_of k queued_two.last.shared.outbox ≤ depth + 1 + 2)
    × ((queued_two.last.shared.drain ≡ stopped)
        ⊎ (pending_of k queued_two.last.shared.outbox
            ≡ length (queue_of k queued_two.last.shared.outbox)
              + busy queued_two.last.shared.drain
              + claims k 2 queued_two.last.thread))
pending_counts_example = pending_counts k (omega arith) queued_two.reach

Step-Grows_example :
    Grows all_out.last.thread 2 (line k all_out.last.shared) (line k all_out.last.shared)
unfolding all_out
Step-Grows_example =
    Step-Grows k (omega arith) all_out.reach (act 1 (omega arith) (Act.begin (note 9) refl refl))
      (λ e. cc) (λ e. cc)

-- The drain task's own send has failed while the second message was still queued.
broke : Run
unfolding queued_two take_next
broke = record {
  last = _;
  reach =
      later (later queued_two.reach (pump (drain_take first _ refl refl refl)))
        (pump (drain_failed first refl));
}

gone : Run
unfolding broke release drop_receiver
gone = record {
  last = _;
  reach =
      later (later broke.reach (pump (drain_uncount _ refl refl))) (pump (drain_stop _ refl refl));
}

stopped_forever_example :
    (gone.last.shared.drain ≡ stopped)
    × ((o : Outbox k) × (gone.last.shared.outbox ≡ some o)
        × (queue_of k (some o) ≡ [])
        × ((m : Sent) → (offer k m o).0 ≡ Tried.closed m))
unfolding gone
stopped_forever_example =
    stopped_forever k (omega arith) gone.reach (act 1 (omega arith) (Act.begin (note 9) refl refl))
      refl

abbrev dress : Message → Datagram
dress m = record { content = payload m; rights = []; creds = none }

handled_in_order_example :
    (recv_loop memory
        (zeros max_message_size)
        (map (λ m. ok (dress m)) (map payload_of all_out.last.shared.wire))
      ≡ (map (λ m. whole (dress m)) (map payload_of all_out.last.shared.wire), none))
    × Ordered all_out.last.shared.wire
unfolding all_out
handled_in_order_example =
    handled_in_order k (omega arith) all_out.reach memory dress (λ m. refl) (zeros max_message_size)
      (length-zeros max_message_size) ((λ e. cc), ((λ e. cc), tt))

abbrev two_left : Outbox k
two_left = record {
  sender = record { capacity = 8; queued = first ∷ second ∷ []; permits = 0; is_closed = false };
  pending = 2;
}

-- The socket takes one message and then fails.
abbrev takes : Sent → ℕ → Option (IoResult Unit) × ℕ
takes m zero = (some (err (from_kind broken_pipe)), zero)
takes m (suc n) = (some (ok tt), n)
