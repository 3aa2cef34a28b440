-- ===== src/Examples/Ordering/Laws.antt =====
-- The checker's verdict says what it claims.
use strong_ipc.Prelude.{
  ℕ, ◌+◌, ◌≤◌, ◌<◌, ◌^◌, ◌≡◌, ◌↔◌, refl, true, false, some, List, [], ◌∷◌, length, All, arith, ◌==◌,
  if◌then◌else◌,
}
use strong_ipc.Examples.Ordering.{
  messages, tag_of, split_header, has_other, SeqChecker, fresh, Arrival, check_tail, check_seq,
  count_in, run, passes,
}

abbrev pub total_fds : List Arrival → ℕ
total_fds [] = 0
total_fds (m ∷ ms) = m.fds + total_fds ms

-- The data has a header.
abbrev pub HasHeader : Arrival → Type 0
HasHeader m = (h : ℕ × List ℕ) × (split_header m.data_bytes ≡ some h)

-- Message `i` of the sender, as far as its number and the tags go
abbrev pub IsMessage : ℕ → Arrival → Type 0
IsMessage i m =
    (rest : List ℕ) × (split_header m.data_bytes ≡ some (i, rest))
    × (has_other (tag_of i) rest ≡ false)

-- The messages from `i` on, none missing, doubled or out of place
abbrev pub InOrder : ℕ → List Arrival → Type 0
InOrder i [] = Unit
InOrder i (m ∷ ms) = IsMessage i m × InOrder (i + 1) ms

-- What has gone wrong by the end, in all
abbrev pub faults : SeqChecker → ℕ
faults s = s.out_of_order + s.payload_corrupt

abbrev one_fault : ℕ → ℕ × List ℕ → ℕ
one_fault i (seq, rest) =
    (if i == seq then 0 else 1) + (if has_other (tag_of seq) rest then 1 else 0)

-- Where the run of the checker ends, if no counter wraps
pub record Ends (ms : List Arrival) (s : SeqChecker) (t : SeqChecker) : Type 0 where
  pub ran : run ms s ≡ some t
  pub received : t.received ≡ s.received + length ms
  pub fds_seen : t.fds_seen ≡ s.fds_seen + total_fds ms
  pub kept_order : s.out_of_order ≤ t.out_of_order
  pub kept_corrupt : s.payload_corrupt ≤ t.payload_corrupt
  pub bounded_order : t.out_of_order ≤ s.out_of_order + length ms
  pub bounded_corrupt : t.payload_corrupt ≤ s.payload_corrupt + length ms
  pub clean : InOrder s.next_expected ms → faults t ≡ faults s
  pub sound : faults t ≡ faults s → InOrder s.next_expected ms

-- The state after a message with a header
abbrev next : Arrival → ℕ → List ℕ → SeqChecker → SeqChecker
next m seq rest s = check_tail (tag_of seq) rest (check_seq seq (count_in m.fds s))

record Counts (m : Arrival) (seq : ℕ) (rest : List ℕ) (s t : SeqChecker) : Type 0 where
  received : t.received ≡ s.received + 1
  fds_seen : t.fds_seen ≡ s.fds_seen + m.fds
  expects : t.next_expected ≡ seq + 1
  order : t.out_of_order ≡ s.out_of_order + (if s.next_expected == seq then 0 else 1)
  corrupt : t.payload_corrupt ≡ s.payload_corrupt + (if has_other (tag_of seq) rest then 1 else 0)

next-Counts :
    (m : Arrival) (seq : ℕ) (rest : List ℕ) (s : SeqChecker)
    → s.received + 1 < 2 ^ 64
    → s.fds_seen + m.fds < 2 ^ 64
    → s.out_of_order + 1 < 2 ^ 64
    → s.payload_corrupt + 1 < 2 ^ 64
    → Counts m seq rest s (next m seq rest s)
next-Counts m seq rest s a b c d = record {
  received = ground arith;
  fds_seen = ground arith;
  expects = ground arith;
  order = ground arith;
  corrupt = ground arith;
}

pub run-Ends :
    (ms : List Arrival) (s : SeqChecker)
    → All HasHeader ms
    → s.received + length ms < 2 ^ 64
    → s.fds_seen + total_fds ms < 2 ^ 64
    → s.out_of_order + length ms < 2 ^ 64
    → s.payload_corrupt + length ms < 2 ^ 64
    → (t : SeqChecker) × Ends ms s t
unfolding run
run-Ends [] s h a b c d = (
  s,
  record {
    ran = refl;
    received = omega arith;
    fds_seen = omega arith;
    kept_order = omega arith;
    kept_corrupt = omega arith;
    bounded_order = omega arith;
    bounded_corrupt = omega arith;
    clean = λ _. refl;
    sound = λ _. tt;
  },
)
run-Ends (m ∷ ms) s (((seq, rest), e), h) a b c d =
    let u = next m seq rest s in
    let n = next-Counts m seq rest s (omega arith) (omega arith) (omega arith) (omega arith) in
    let (t, v) =
      run-Ends ms u h (ground (arith, n)) (ground (arith, n)) (ground (arith, n))
        (ground (arith, n)) in
    (
      t,
      record {
        ran = ground (arith, v.ran);
        received = omega (arith, v.received, n.received);
        fds_seen = omega (arith, v.fds_seen, n.fds_seen);
        kept_order = ground (arith, v.kept_order, n.order);
        kept_corrupt = ground (arith, v.kept_corrupt, n.corrupt);
        bounded_order = ground (arith, v.bounded_order, n.order);
        bounded_corrupt = ground (arith, v.bounded_corrupt, n.corrupt);
        clean = λ g.
            let same : seq ≡ s.next_expected = ground (arith, e, g.0) in
            let tags : has_other (tag_of seq) rest ≡ false = ground (arith, e, g.0) in
            ground (arith, v.clean (rw (n.expects, same) g.1), n.order, n.corrupt, same, tags);
        sound = λ g.
            let same : s.next_expected ≡ seq =
              ground (arith, g, n.order, n.corrupt, v.kept_order, v.kept_corrupt) in
            let tags : has_other (tag_of seq) rest ≡ false =
              ground (arith, g, n.order, n.corrupt, v.kept_order, v.kept_corrupt) in
            let later : InOrder u.next_expected ms =
              v.sound (ground (arith, g, n.order, n.corrupt, same, tags)) in
            ((rest, rw same e, rw same tags), rw (same, ← n.expects) later);
      },
    )

-- For fewer than 2 ^ 64 messages, each of at least four bytes, with fewer than 2 ^ 64 descriptors in all:
-- the handler never panics, and the program's verdict on what it has counted is a pass exactly if
-- what arrived is the whole sequence of sent numbers, none lost, doubled or out of place, each with its
-- own tag throughout, and as many descriptors as messages.
pub passes_iff :
    (ms : List Arrival)
    → All HasHeader ms
    → length ms < 2 ^ 64
    → total_fds ms < 2 ^ 64
    → (t : SeqChecker) × (run ms fresh ≡ some t)
      × ((passes t ≡ true) ↔ ((length ms ≡ messages) × (total_fds ms ≡ messages) × InOrder 0 ms))
unfolding passes
passes_iff ms h a b =
    let (t, v) = run-Ends ms fresh h (omega arith) (omega arith) (omega arith) (omega arith) in
    (
      t,
      v.ran,
      (
        λ p. (
          ground (arith, v.received),
          ground (arith, v.received, v.fds_seen),
          v.sound (ground arith),
        ),
        λ q. ground (arith, v.received, v.fds_seen, v.clean q.2),
      ),
    )
