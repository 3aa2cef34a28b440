-- ===== src/Examples/Stages/Laws.antt =====
-- The samples that timeline.rs prints, and when a message counts as lost.
use strong_ipc.Prelude.{
  ℕ, suc, ◌+◌, ◌-◌, ◌≤◌, ◌≡◌, refl, Bool-cases, inl, inr, List, [], ◌∷◌, ◌++◌, Option, none, some,
  length, length-append, ◌==◌, arith,
}
use strong_ipc.Examples.Stages.{
  Stamps, Trip, Stages, start, lose, in_order, record_row, recv, check_reply, next_seq, exchange,
  burst_loop, frame_loop,
}

abbrev pub sums : List ℕ → List ℕ → List ℕ
sums [] ys = []
sums (x ∷ xs) [] = []
sums (x ∷ xs) (y ∷ ys) = (x + y) ∷ sums xs ys

sums-append :
    (xs ys : List ℕ) (x y : ℕ)
    → length xs ≡ length ys
    → sums (xs ++ (x ∷ [])) (ys ++ (y ∷ [])) ≡ sums xs ys ++ ((x + y) ∷ [])
sums-append [] [] x y h = refl
sums-append [] (y' ∷ ys) x y h = absurd (omega arith)
sums-append (x' ∷ xs) [] x y h = absurd (omega arith)
sums-append (x' ∷ xs) (y' ∷ ys) x y h = rw (sums-append xs ys x y (omega arith)) refl

length-sums : (xs ys : List ℕ) → length xs ≡ length ys → length (sums xs ys) ≡ length xs
length-sums [] ys h = refl
length-sums (x ∷ xs) [] h = absurd (omega arith)
length-sums (x ∷ xs) (y ∷ ys) h = omega (arith, length-sums xs ys (omega arith))

-- Numbers in rising order, from `lo` to below `hi`
abbrev pub Rising : ℕ → List ℕ → ℕ → Type 0
Rising lo [] hi = lo ≤ hi
Rising lo (x ∷ xs) hi = (lo ≤ x) × Rising (suc x) xs hi

Rising-suc : (lo : ℕ) (xs : List ℕ) (hi : ℕ) → Rising lo xs hi → Rising lo xs (suc hi)
Rising-suc lo [] hi h = omega arith
Rising-suc lo (x ∷ xs) hi h = (h.0, Rising-suc (suc x) xs hi h.1)

Rising-append :
    (lo : ℕ) (xs : List ℕ) (hi : ℕ) → Rising lo xs hi → Rising lo (xs ++ (hi ∷ [])) (suc hi)
Rising-append lo [] hi h = (h, omega arith)
Rising-append lo (x ∷ xs) hi h = (h.0, Rising-append (suc x) xs hi h.1)

-- Every row's stages add up to its round trip; and of the messages from `n` to before `s.seq`, each has
-- a row or is lost.
pub record IsTable (n : ℕ) (s : Stages) : Type 0 where
  pub adds_up : sums (sums s.a s.b) (sums s.c s.d) ≡ s.total
  pub length_a : length s.a ≡ length s.total
  pub length_b : length s.b ≡ length s.total
  pub length_c : length s.c ≡ length s.total
  pub length_d : length s.d ≡ length s.total
  pub length_seqs : length s.seqs ≡ length s.total
  pub rising : Rising n s.seqs s.seq
  pub accounted : n + length s.total + s.lost ≡ s.seq

start-IsTable : (n : ℕ) → IsTable n (start n)
start-IsTable n = record {
  adds_up = refl;
  length_a = refl;
  length_b = refl;
  length_c = refl;
  length_d = refl;
  length_seqs = refl;
  rising = omega arith;
  accounted = omega arith;
}

lose-IsTable : (n : ℕ) (s : Stages) → IsTable n s → IsTable n (next_seq (lose s))
lose-IsTable n s h = record {
  adds_up = h.adds_up;
  length_a = h.length_a;
  length_b = h.length_b;
  length_c = h.length_c;
  length_d = h.length_d;
  length_seqs = h.length_seqs;
  rising = Rising-suc n s.seqs s.seq h.rising;
  accounted = omega (arith, h.accounted);
}

grown :
    (xs ys : List ℕ) (x y : ℕ)
    → length xs ≡ length ys
    → length (xs ++ (x ∷ [])) ≡ length (ys ++ (y ∷ []))
grown xs ys x y h = omega (arith, length-append xs (x ∷ []), length-append ys (y ∷ []))

lengths :
    {n : ℕ} (s : Stages)
    → IsTable n s
    → (length s.a ≡ length s.total)
      × (length s.b ≡ length s.total)
      × (length s.c ≡ length s.total)
      × (length s.d ≡ length s.total)
lengths s h = (h.length_a, h.length_b, h.length_c, h.length_d)

halves : {n : ℕ} (s : Stages) → IsTable n s → length (sums s.a s.b) ≡ length (sums s.c s.d)
halves s h =
    let (p, q, r, u) = lengths s h in
    omega (arith, length-sums s.a s.b (omega arith), length-sums s.c s.d (omega arith))

-- The row of message `s.seq` with stages `x`, `y`, `z`, `u`
row-IsTable :
    (n x y z u t : ℕ) (s : Stages)
    → x + y + (z + u) ≡ t
    → IsTable n s
    → IsTable n (
        next_seq (record s {
          a = s.a ++ (x ∷ []);
          b = s.b ++ (y ∷ []);
          c = s.c ++ (z ∷ []);
          d = s.d ++ (u ∷ []);
          total = s.total ++ (t ∷ []);
          seqs = s.seqs ++ (s.seq ∷ []);
        }))
row-IsTable n x y z u t s e h = record {
  adds_up =
      rw
        (
          sums-append s.a s.b x y (omega (arith, h.length_a, h.length_b)),
          sums-append s.c s.d z u (omega (arith, h.length_c, h.length_d)),
          sums-append (sums s.a s.b) (sums s.c s.d) (x + y) (z + u) (halves s h),
          h.adds_up,
          e,
        )
        refl;
  length_a = grown s.a s.total x t h.length_a;
  length_b = grown s.b s.total y t h.length_b;
  length_c = grown s.c s.total z t h.length_c;
  length_d = grown s.d s.total u t h.length_d;
  length_seqs = grown s.seqs s.total s.seq t h.length_seqs;
  rising = Rising-append n s.seqs s.seq h.rising;
  accounted = omega (arith, h.accounted, length-append s.total (t ∷ []));
}

requeue : (n : ℕ) (s : Stages) (q : List Stamps) → IsTable n s → IsTable n (record s { queue = q })
requeue n s q h = record {
  adds_up = h.adds_up;
  length_a = h.length_a;
  length_b = h.length_b;
  length_c = h.length_c;
  length_d = h.length_d;
  length_seqs = h.length_seqs;
  rising = h.rising;
  accounted = h.accounted;
}

record_row-IsTable :
    (n t0 t0b : ℕ) (r : Stamps) (s : Stages)
    → r.0 ≡ s.seq
    → IsTable n s
    → IsTable n (next_seq (record_row t0 t0b r s))
record_row-IsTable n t0 t0b (got, t1, t2, t3) s e h = elim (Bool-cases (in_order t0 t0b t1 t2 t3)) [
  | inl ordered ↦
      rw (ordered, e)
        (row-IsTable n (t0b - t0) (t1 - t0b) (t2 - t1) (t3 - t2) (t3 - t0) s (ground arith) h)
  | inr not_ordered ↦ rw not_ordered (lose-IsTable n s h)
]

check_reply-IsTable :
    (n t0 t0b : ℕ) (o : Option Stamps) (s : Stages)
    → IsTable n s
    → IsTable n (next_seq (check_reply t0 t0b o s))
check_reply-IsTable n t0 t0b none s h = lose-IsTable n s h
check_reply-IsTable n t0 t0b (some r) s h = elim (Bool-cases (r.0 == s.seq)) [
  | inl own ↦ rw own (record_row-IsTable n t0 t0b r s (ground arith) h)
  | inr other ↦ rw other (lose-IsTable n s h)
]

burst_loop-IsTable : (n : ℕ) (l : List Trip) (s : Stages) → IsTable n s → IsTable n (burst_loop l s)
unfolding burst_loop
burst_loop-IsTable n [] s h = h
burst_loop-IsTable n (x ∷ l) s h = elim (Bool-cases x.accepted) [
  | inl sent ↦
      let (r, q) = recv (s.queue ++ x.arrivals) in
      rw sent (
        burst_loop-IsTable n l (exchange x s)
          (check_reply-IsTable n x.t0 x.t0b r (record s { queue = q }) (requeue n s q h)))
  | inr refused ↦ rw refused h
]

-- Whatever the server, the channel and the clock do, the lists that the example prints are a table from
-- the first message after the warmup on: they have one length, each row's four stages add up to its round
-- trip, the rows' numbers rise, and every message that was accepted has a row or is counted as lost.
pub frame_loop-IsTable : (n : ℕ) (l : List (List Trip)) → IsTable n (frame_loop l (start n))
unfolding frame_loop
frame_loop-IsTable n l = go l (start n) (start-IsTable n)
  where
    go : (l : List (List Trip)) (s : Stages) → IsTable n s → IsTable n (frame_loop l s)
    go [] s h = h
    go (f ∷ l) s h = go l (burst_loop f s) (burst_loop-IsTable n f s h)
