-- ===== src/Traffic/Alone/Draining.antt =====
-- `drain` of Outbox/Close.antt, which runs alone after the last `Ref` is dropped, against the drain task's
-- accesses in the interleaved form.
use strong_ipc.Prelude.{ℕ, ◌≡◌, Option, none, some, List, ◌∷◌, ◌++◌}
use strong_ipc.Io.{IoResult, ok, err}
use strong_ipc.Channel.{Mpsc}
use strong_ipc.Outbox.{Outbox, receiving, holding, stopped, take_next, drop_receiver}
use strong_ipc.Outbox.Close.{Drained, drain}
use strong_ipc.Traffic.{Sent, Shared}
use strong_ipc.Traffic.Progress.{Pumps}

module _ {W : Type 0} (k : Mpsc Sent) (send : Sent → W → Option (IoResult Unit) × W) where
  -- The task's end, seen in the interleaved model, where a queue `q` was there: it has sent all of it and
  -- waits for more, which only the loss of the last sender turns into a return; or it has sent what was
  -- before the message that failed, and stopped; or it has sent what was before a message whose send never
  -- comes to an end, and holds that one.
  abbrev pub EndsAs : List Sent → List Sent → Option (IoResult Unit) → Outbox k → Shared k → Type 0
  EndsAs q wire none o sh =
      (went : List Sent) × (m : Sent) × (left : List Sent) × (went ++ (m ∷ left) ≡ q)
      × (sh.wire ≡ wire ++ went)
      × (sh.drain ≡ holding m)
      × (sh.outbox ≡ some o)
  EndsAs q wire (some (ok _)) o sh =
      (sh.wire ≡ wire ++ q)
      × (sh.drain ≡ receiving)
      × ((b : Outbox k) × (sh.outbox ≡ some b) × (o ≡ drop_receiver k (take_next k b).1))
  EndsAs q wire (some (err e)) o sh =
      (went : List Sent) × (m : Sent) × (left : List Sent) × (went ++ (m ∷ left) ≡ q)
      × (sh.wire ≡ wire ++ went)
      × (sh.drain ≡ stopped)
      × (sh.outbox ≡ some o)

  pub record Runs (q : List Sent) (fuel : ℕ) (o : Outbox k) (w : W) (sh : Shared k) : Type 0 where
    pub last : Drained k send
    pub ran : drain k send fuel o w ≡ some last
    pub after : Shared k
    pub pumps : Pumps k sh after
    pub ends : EndsAs q sh.wire last.result last.outbox after
