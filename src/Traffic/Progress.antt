-- ===== src/Traffic/Progress.antt =====
-- What the drain task does when it is left alone: it works off its backlog, in order, and ends.
use strong_ipc.Prelude.{
  ℕ, ◌+◌, ◌*◌, ◌≤◌, ◌<◌, ◌^◌, ◌≡◌, ◌≢◌, refl, sym, ◌∙◌, Option, some, none, List, [], ◌∷◌, ◌++◌,
  arith, length, append-nil, append_assoc,
}
use strong_ipc.Channel.{Mpsc}
use strong_ipc.Outbox.{
  Outbox, Drain, absent, receiving, holding, sent_one, broken, closing, stopped, take_next, release,
  drop_receiver,
}
use strong_ipc.Outbox.View.{pending_of, queue_of}
use strong_ipc.Traffic.{
  Sent, Shared, System, Reach, Pump, drain_take, drain_sent, drain_failed, drain_settle,
  drain_uncount, drain_stop,
}
use strong_ipc.Traffic.Line.{tail_of, in_hand, IsUnbuilt}
use strong_ipc.Traffic.Invariant.{Reach-Inv}

-- Accesses that the drain task has to make at most before it is through with its backlog.
abbrev pub rank_of : Drain Sent → ℕ
rank_of (holding m) = 3
rank_of sent_one = 1
rank_of broken = 2
rank_of closing = 1
rank_of absent = 0
rank_of receiving = 0
rank_of stopped = 0

module _ (k : Mpsc Sent) where
  abbrev pub rank : Shared k → ℕ
  rank sh = 4 * length (queue_of k sh.outbox) + rank_of sh.drain

  -- Every access of the drain task brings it nearer to its end, also when a send fails.
  pub Pump-rank-lt : {sh sh' : Shared k} → Pump k sh sh' → rank sh' < rank sh
  unfolding take_next release drop_receiver
  Pump-rank-lt (drain_take m o e f g) = ground (arith, k.recv_law o.sender)
  Pump-rank-lt (drain_sent m e) = ground arith
  Pump-rank-lt (drain_failed m e) = ground arith
  Pump-rank-lt (drain_settle o e f) = ground arith
  Pump-rank-lt (drain_uncount o e f) = ground arith
  Pump-rank-lt (drain_stop o e f) = ground (arith, k.view-close o.sender)

  enabled :
      (sh : Shared k) (d : Drain Sent) (b : Option (Outbox k)) (q : List Sent)
      → sh.drain ≡ d
      → sh.outbox ≡ b
      → queue_of k b ≡ q
      → IsUnbuilt k b d
      → in_hand d ++ q ≢ []
      → d ≢ stopped
      → (v : Shared k) × Pump k sh v
  unfolding take_next
  enabled sh absent (some o) q hd hb hq u w a = absurd (u refl)
  enabled sh receiving none q hd hb hq u w a = absurd (w (sym hq))
  enabled sh receiving (some o) [] hd hb hq u w a = absurd (w refl)
  enabled sh receiving (some o) (m ∷ q) hd hb hq u w a =
      (_, drain_take m o hd hb (ground (arith, k.recv_law o.sender)))
  enabled sh (holding m) b q hd hb hq u w a = (_, drain_sent m hd)
  enabled sh sent_one (some o) q hd hb hq u w a = (_, drain_settle o hd hb)
  enabled sh broken (some o) q hd hb hq u w a = (_, drain_uncount o hd hb)
  enabled sh closing (some o) q hd hb hq u w a = (_, drain_stop o hd hb)
  enabled sh stopped b q hd hb hq u w a = absurd (a refl)
  enabled sh d none q hd hb hq u w a = absurd (w (sym hq))

  -- With fewer than 2 ^ 63 threads, in a reachable state in which an accepted message is not yet
  -- on the wire and the drain task has not stopped, the drain task can move.
  pub drain_enabled :
      {n : ℕ} {s : System k}
      → n < 2 ^ 63
      → Reach k n s
      → tail_of k s.shared ≢ []
      → s.shared.drain ≢ stopped
      → (sh : Shared k) × Pump k s.shared sh
  drain_enabled {s} few r waits alive =
      enabled s.shared s.shared.drain s.shared.outbox (queue_of k s.shared.outbox) refl refl refl
        (Reach-Inv k few r).counted.unbuilt waits alive

  -- Accesses of the drain task alone.
  pub data Pumps : Shared k → Shared k → Type 0 where
    done : {u : Shared k} → Pumps u u
    more : {u v w : Shared k} → Pump k u v → Pumps v w → Pumps u w

  -- Left alone, with every send accepted by the kernel, a drain task that waits for messages, with a
  -- counter below 2 ^ 64 that is no less than the length of its queue, puts the
  -- whole queue on the wire in order, behind what is there, and gives each message's count back.
  pub drain_all :
      (q : List Sent) (sh : Shared k) (o : Outbox k)
      → sh.drain ≡ receiving
      → sh.outbox ≡ some o
      → queue_of k sh.outbox ≡ q
      → length q ≤ o.pending
      → o.pending < 2 ^ 64
      → (v : Shared k) × Pumps sh v
        × (v.drain ≡ receiving)
        × (queue_of k v.outbox ≡ [])
        × (v.wire ≡ sh.wire ++ q)
        × (pending_of k v.outbox + length q ≡ o.pending)
  unfolding take_next release
  drain_all [] sh o d e f g h = (sh, done, d, f, sym (append-nil sh.wire), ground arith)
  drain_all (m ∷ q) sh o d e f g h =
      let o' = (take_next k o).1 in
      let (v, p, a, b, c, x) =
        drain_all q
          (record { outbox = some (release k o'); drain = receiving; wire = sh.wire ++ (m ∷ []) })
          (release k o') refl refl (ground (arith, k.recv_law o.sender)) (ground arith)
          (ground arith) in
      (
        v,
        more (drain_take m o d e (ground (arith, k.recv_law o.sender)))
            (more (drain_sent m refl) (more (drain_settle o' refl refl) p)),
        a,
        b,
        c ∙ append_assoc sh.wire (m ∷ []) q,
        ground arith,
      )
