-- ===== src/Examples/Stages/Sync.antt =====
-- One reply that comes after its timeout, and what becomes of the messages behind it.
use strong_ipc.Prelude.{
  ℕ, suc, ◌+◌, ◌-◌, ◌<◌, ◌≡◌, refl, true, false, List, [], ◌∷◌, ◌++◌, length, map, append_assoc,
  append-nil, sym, ◌∙◌, All, ◌==◌, arith,
}
use strong_ipc.Examples.Stages.{Stamps, Trip, Stages, lose, in_order, next_seq, burst_loop}

-- The clock's five readings for one message: `t0`, `t0b`, `t1`, `t2` and `t3`
abbrev pub Readings : Type 0
Readings = ℕ × ℕ × ℕ × ℕ × ℕ

-- Turns from message `n` on, each of which brings its own reply in time.
abbrev pub answered : ℕ → List Readings → List Trip
answered n [] = []
answered n ((t0, t0b, t1, t2, t3) ∷ l) =
    record { t0 = t0; accepted = true; t0b = t0b; arrivals = (n, t1, t2, t3) ∷ [] }
    ∷ answered (suc n) l

abbrev pub Ordered : Readings → Type 0
Ordered (t0, t0b, t1, t2, t3) = in_order t0 t0b t1 t2 t3 ≡ true

abbrev pub holding : List Stamps → Stages → Stages
holding q s = record s { queue = q }

same : (n : ℕ) → (n == n) ≡ true
same n = ground arith

other : (m n : ℕ) → m < n → (m == n) ≡ false
other m n h = ground arith

-- The message with these readings has got its row.
abbrev rowed : Readings → Stages → Stages
rowed (t0, t0b, t1, t2, t3) s = record s {
  a = s.a ++ ((t0b - t0) ∷ []);
  b = s.b ++ ((t1 - t0b) ∷ []);
  c = s.c ++ ((t2 - t1) ∷ []);
  d = s.d ++ ((t3 - t2) ∷ []);
  total = s.total ++ ((t3 - t0) ∷ []);
  seqs = s.seqs ++ (s.seq ∷ []);
}

-- The numbers from `n` on, one for each message
abbrev pub numbers : ℕ → List Readings → List ℕ
numbers n [] = []
numbers n (x ∷ l) = n ∷ numbers (suc n) l

-- From `s` to `u` the columns have grown by one row for each message: the four stages between its readings,
-- the whole of its round trip, and its number.
abbrev pub Rows : List Readings → Stages → Stages → Type 0
Rows l s u =
    (u.a ≡ s.a ++ map (λ x. x.1 - x.0) l)
    × (u.b ≡ s.b ++ map (λ x. x.2 - x.1) l)
    × (u.c ≡ s.c ++ map (λ x. x.3 - x.2) l)
    × (u.d ≡ s.d ++ map (λ x. x.4 - x.3) l)
    × (u.total ≡ s.total ++ map (λ x. x.4 - x.0) l)
    × (u.seqs ≡ s.seqs ++ numbers s.seq l)

-- No column has changed.
abbrev pub SameRows : Stages → Stages → Type 0
SameRows s u =
    (u.a ≡ s.a) × (u.b ≡ s.b) × (u.c ≡ s.c) × (u.d ≡ s.d) × (u.total ≡ s.total) × (u.seqs ≡ s.seqs)

row-Rows :
    (t0 t0b t1 t2 t3 : ℕ) (l : List Readings) (s u : Stages)
    → Rows l (next_seq (rowed (t0, t0b, t1, t2, t3) s)) u
    → Rows ((t0, t0b, t1, t2, t3) ∷ l) s u
row-Rows t0 t0b t1 t2 t3 l s u (a, b, c, d, total, seqs) = (
  a ∙ append_assoc s.a _ _,
  b ∙ append_assoc s.b _ _,
  c ∙ append_assoc s.c _ _,
  d ∙ append_assoc s.d _ _,
  total ∙ append_assoc s.total _ _,
  seqs ∙ append_assoc s.seqs _ _,
)

-- From an empty channel
burst_loop-answered :
    (l : List Readings) (s : Stages)
    → All Ordered l
    → Rows l s (burst_loop (answered s.seq l) (holding [] s))
      × ((burst_loop (answered s.seq l) (holding [] s)).lost ≡ s.lost)
unfolding burst_loop
burst_loop-answered [] s h = (
  (
    sym (append-nil s.a),
    sym (append-nil s.b),
    sym (append-nil s.c),
    sym (append-nil s.d),
    sym (append-nil s.total),
    sym (append-nil s.seqs),
  ),
  refl,
)
burst_loop-answered ((t0, t0b, t1, t2, t3) ∷ l) s h =
    let (rows, lost) = burst_loop-answered l (next_seq (rowed (t0, t0b, t1, t2, t3) s)) h.1 in
    rw (same s.seq, h.0)
      (
        row-Rows t0 t0b t1 t2 t3 l s
            (burst_loop (answered (suc s.seq) l)
              (holding [] (next_seq (rowed (t0, t0b, t1, t2, t3) s))))
            rows,
        lost,
      )

-- With an old reply in the channel
burst_loop-stale :
    (l : List Readings) (r : Stamps) (s : Stages)
    → r.0 < s.seq
    → SameRows s (burst_loop (answered s.seq l) (holding (r ∷ []) s))
      × ((burst_loop (answered s.seq l) (holding (r ∷ []) s)).lost ≡ s.lost + length l)
unfolding burst_loop
burst_loop-stale [] r s h = ((refl, refl, refl, refl, refl, refl), omega arith)
burst_loop-stale ((t0, t0b, t1, t2, t3) ∷ l) r s h =
    let (rows, lost) = burst_loop-stale l (s.seq, t1, t2, t3) (next_seq (lose s)) (omega arith) in
    rw (other r.0 s.seq h) (rows, omega (arith, lost))

-- With every reply in time and in order of its stamps, each message of a frame gets its row from an empty
-- channel, with the four stages between its five readings, the round trip and its number, and none is
-- lost. But from a channel that holds one reply to an earlier message, every message is counted as lost,
-- although its own reply came, and no column changes.
pub burst_loop-Sync :
    (l : List Readings) (r : Stamps) (s : Stages)
    → All Ordered l
    → r.0 < s.seq
    → let fresh = burst_loop (answered s.seq l) (holding [] s) in
      let stale = burst_loop (answered s.seq l) (holding (r ∷ []) s) in
      Rows l s fresh × (fresh.lost ≡ s.lost) × SameRows s stale × (stale.lost ≡ s.lost + length l)
burst_loop-Sync l r s h lt =
    let (a, b) = burst_loop-answered l s h in let (c, d) = burst_loop-stale l r s lt in (a, b, c, d)
