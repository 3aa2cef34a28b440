-- ===== src/Traffic/Alone.antt =====
-- How one thread runs alone in the interleaved model, against the sequential definitions of Capability:
-- there the messages of the channel bear their sender and number, here they do not.
pub mod Trying
pub mod Waiting
pub mod Draining
use mathlib.Core.Path.{subst}
use strong_ipc.Prelude.{
  ℕ, ◌+◌, ◌≡◌, ◌⊎◌, inl, inr, refl, sym, ap, ◌∙◌, Bool, true, false, Bool-cases, Option, none, some,
  List, [], ◌∷◌, ◌++◌, map, if◌then◌else◌, length-map, arith,
}
use strong_ipc.Error.{TrySendError}
use strong_ipc.Io.{IoResult, ok, err}
use strong_ipc.Message.{Message}
use strong_ipc.Wire.Send.{Sockets, send_now}
use strong_ipc.Wire.Sizes.{depth}
use strong_ipc.Wire.Reactive.{is_would_block}
use strong_ipc.Channel.{Mpsc, Lane, Tried, lane_try_send}
use strong_ipc.Outbox.{Outbox, receiving, build, push, settle, claim, release, offer, is_backed_up}
use strong_ipc.Capability.Gate.{is_too_large, backlog, inline_ok}
use strong_ipc.Capability.Send.{
  TrySend, done, failed, Result, settled, build_then_push, queue_up, after_inline, try_send,
}
use strong_ipc.Traffic.{
  Sent, Pc, waiting, bounced, idle, checked, loaded, backed, pushing, claimed, Thread, tag, at,
  finish, Shared, with_outbox, deliver, Act,
}
use strong_ipc.Traffic.Delivery.{payload_of}

abbrev pub erase : Lane Sent → Lane Message
erase q = record {
  capacity = q.capacity;
  queued = map payload_of q.queued;
  permits = q.permits;
  is_closed = q.is_closed;
}

pub map-append :
    (l : List Sent) (m : Sent)
    → map payload_of (l ++ (m ∷ [])) ≡ map payload_of l ++ (payload_of m ∷ [])
map-append [] m = refl
map-append (x ∷ l) m = ap (◌∷◌ (payload_of x)) (map-append l m)

-- Where a thread stands with message `m` after `try_send` in its call `n`: it has returned; but `Full`
-- leads to `Outbox::send` where the call is one of `send`.
abbrev pub where_to : TrySend → (in_send : Bool) → Sent → ℕ → Thread
where_to done b m n = record { pc = idle; next = n + 1 }
where_to (failed (TrySendError.closed _)) b m n = record { pc = idle; next = n + 1 }
where_to (failed (TrySendError.too_large _)) b m n = record { pc = idle; next = n + 1 }
where_to (failed (TrySendError.full _)) b m n =
    if b then record { pc = waiting m; next = n } else record { pc = idle; next = n + 1 }

module _ (k : Mpsc Sent) where
  -- Accesses of thread `i` with nobody in between
  pub data Acts (i : ℕ) : Shared k → Thread → Shared k → Thread → Type 0 where
    here : {sh : Shared k} {t : Thread} → Acts i sh t sh t
    next :
        {sh sh₁ sh' : Shared k} {t t₁ t' : Thread}
        → Act k i sh t sh₁ t₁
        → Acts i sh₁ t₁ sh' t'
        → Acts i sh t sh' t'

module _ (c : Mpsc Message) (k : Mpsc Sent) where
  -- The same outbox but for the names
  abbrev pub Alike : Option (Outbox c) → Option (Outbox k) → Type 0
  Alike none none = Unit {0}
  Alike (some p) (some o) = (c.view p.sender ≡ erase (k.view o.sender)) × (p.pending ≡ o.pending)
  Alike none (some o) = ⊥
  Alike (some p) none = ⊥

  -- A run of thread `i` to where it stands at `t'`, with an outbox like `p` and with `wire` sent.
  pub record Returns (i : ℕ) (sh : Shared k) (t : Thread) (wire : List Sent) (p : Option (Outbox c))
      (t' : Thread) : Type 0 where
    pub last : Shared k
    pub steps : Acts k i sh t last t'
    pub alike : Alike p last.outbox
    pub on_wire : last.wire ≡ wire

  -- One access first
  pub first :
      {i : ℕ} {sh sh₁ : Shared k} {t t₁ t' : Thread} {wire : List Sent} {p : Option (Outbox c)}
      → Act k i sh t sh₁ t₁
      → Returns i sh₁ t₁ wire p t'
      → Returns i sh t wire p t'
  first a r = record { last = r.last; steps = next a r.steps; alike = r.alike; on_wire = r.on_wire }
