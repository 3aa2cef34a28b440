-- ===== src/Outbox/View.antt =====
-- What a `Ref`'s cell for its outbox shows: the channel's lane and the pending counter.
use strong_ipc.Prelude.{ℕ, List, Option, none, some}
use strong_ipc.Channel.{Mpsc, Lane, lane_new}
use strong_ipc.Wire.Sizes.{depth}
use strong_ipc.Outbox.{Outbox}

module _ {M : Type 0} (k : Mpsc M) where
  abbrev pub lane_of : Option (Outbox k) → Lane M
  lane_of none = lane_new depth
  lane_of (some o) = k.view o.sender

  abbrev pub queue_of : Option (Outbox k) → List M
  queue_of o = (lane_of o).queued

  abbrev pub pending_of : Option (Outbox k) → ℕ
  pending_of none = 0
  pending_of (some o) = o.pending
