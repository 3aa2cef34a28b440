-- ===== src/Outbox/Close.antt =====
-- `Outbox::drain` of src/outbox.rs once the last `Ref` is dropped: no sender is left, so nothing joins the
-- queue any more, and `recv` gives `None` where the queue is empty. `W` is the kernel's side of the socket.
-- `send` is `socket.send`, and `none` from it says that it never comes to an end: a live peer that does not
-- read keeps it waiting for room.
pub mod Laws
mod Tests
use strong_ipc.Prelude.{ℕ, zero, suc, Option, none, some}
use strong_ipc.Io.{IoResult, ok, err}
use strong_ipc.Channel.{Mpsc}
use strong_ipc.Outbox.{Outbox, release, take_next, drop_receiver}

module _ {M W : Type 0} (k : Mpsc M) (send : M → W → Option (IoResult Unit) × W) where
  -- What `drain` returns, the outbox that it leaves and the socket; with `none` it never returns, but
  -- waits in a send.
  pub record Drained : Type 0 where
    pub result : Option (IoResult Unit)
    pub outbox : Outbox k
    pub socket : W

  -- `pending.fetch_sub(1); result?;`, and on an error the receiver is dropped.
  abbrev pub after_send :
      (Outbox k → W → Option Drained) → Outbox k → Option (IoResult Unit) × W → Option Drained
  after_send again o (none, w) = some (record { result = none; outbox = o; socket = w })
  after_send again o (some (ok _), w) = again (release k o) w
  after_send again o (some (err e), w) =
      some (record { result = some (err e); outbox = drop_receiver k (release k o); socket = w })

  abbrev pub after_take : (Outbox k → W → Option Drained) → Option M × Outbox k → W → Option Drained
  after_take again (none, o) w =
      some (record { result = some (ok tt); outbox = drop_receiver k o; socket = w })
  after_take again (some m, o) w = after_send again o (send m w)

  -- `Outbox::drain`; `none` where the fuel does not suffice.
  pub drain : ℕ → Outbox k → W → Option Drained
  unfolding take_next release drop_receiver
  drain zero o w = none
  drain (suc n) o w = after_take (drain n) (take_next k o) w
