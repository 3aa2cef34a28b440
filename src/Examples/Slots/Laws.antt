-- ===== src/Examples/Slots/Laws.antt =====
-- What is put into a slot is read from it, and no other slot changes.
use Prim.Native.Nat.{◌/◌}
use strong_ipc.Prelude.{
  ℕ, zero, suc, ◌+◌, ◌*◌, ◌^◌, ◌≤◌, ◌<◌, ◌≡◌, ◌≢◌, refl, ap, ◌∙◌, some, List, [], ◌∷◌, ◌++◌, length,
  Option-cases, inl, inr, arith, dec_lt,
}
use strong_ipc.Examples.Slots.{header_len, le_bytes, read_le, write_at, get, put, then_put, stamp}

length-le_bytes : (n v : ℕ) → length (le_bytes n v) ≡ n
unfolding le_bytes
length-le_bytes zero v = refl
length-le_bytes (suc n) v = ap suc (length-le_bytes n (v / 256))

-- What `n` bytes can hold
abbrev limit : ℕ → ℕ
limit zero = 1
limit (suc n) = 256 * limit n

read_le-le_bytes : (n v : ℕ) → v < limit n → read_le zero n (le_bytes n v) ≡ some v
unfolding read_le le_bytes
read_le-le_bytes zero v h = ap some (omega arith)
read_le-le_bytes (suc n) v h = ground (arith, read_le-le_bytes n (v / 256) (omega arith))

-- A write inside the buffer succeeds, and touches only its own place.
record Wrote (i : ℕ) (bytes buf out : List ℕ) : Type 0 where
  ran : write_at i bytes buf ≡ some out
  same_length : length out ≡ length buf
  own : read_le i (length bytes) out ≡ read_le zero (length bytes) bytes
  before : (j n : ℕ) → j + n ≤ i → read_le j n out ≡ read_le j n buf
  after : (j n : ℕ) → i + length bytes ≤ j → read_le j n out ≡ read_le j n buf

write_here :
    (v b : ℕ) (bytes buf out : List ℕ)
    → Wrote zero bytes buf out
    → Wrote zero (v ∷ bytes) (b ∷ buf) (v ∷ out)
unfolding write_at read_le
write_here v b bytes buf out w = record {
  ran = ground (arith, w.ran);
  same_length = omega (arith, w.same_length);
  own = ground (arith, w.own);
  before = untouched;
  after = shifted;
}
  where
    untouched : (j n : ℕ) → j + n ≤ 0 → read_le j n (v ∷ out) ≡ read_le j n (b ∷ buf)
    untouched zero zero l = refl
    untouched zero (suc n) l = absurd (omega arith)
    untouched (suc j) n l = absurd (omega arith)

    shifted : (j n : ℕ) → 0 + length (v ∷ bytes) ≤ j → read_le j n (v ∷ out) ≡ read_le j n (b ∷ buf)
    shifted zero n l = absurd (omega arith)
    shifted (suc j) n l = w.after j n (omega arith)

write_further :
    (i b : ℕ) (bytes buf out : List ℕ)
    → Wrote i bytes buf out
    → Wrote (suc i) bytes (b ∷ buf) (b ∷ out)
unfolding write_at read_le
write_further i b bytes buf out w = record {
  ran = ground (arith, w.ran);
  same_length = omega (arith, w.same_length);
  own = w.own;
  before = untouched;
  after = shifted;
}
  where
    untouched : (j n : ℕ) → j + n ≤ suc i → read_le j n (b ∷ out) ≡ read_le j n (b ∷ buf)
    untouched zero zero l = refl
    untouched zero (suc n) l = ground (arith, w.before zero n (omega arith))
    untouched (suc j) n l = w.before j n (omega arith)

    shifted : (j n : ℕ) → suc i + length bytes ≤ j → read_le j n (b ∷ out) ≡ read_le j n (b ∷ buf)
    shifted zero n l = absurd (omega arith)
    shifted (suc j) n l = w.after j n (omega arith)

write_at-Wrote :
    (i : ℕ) (bytes buf : List ℕ)
    → i + length bytes ≤ length buf
    → (out : List ℕ) × Wrote i bytes buf out
unfolding write_at read_le
write_at-Wrote zero [] buf h = (
  buf,
  record {
    ran = refl;
    same_length = refl;
    own = refl;
    before = λ j n l. refl;
    after = λ j n l. refl;
  },
)
write_at-Wrote zero (v ∷ bytes) [] h = absurd (omega arith)
write_at-Wrote zero (v ∷ bytes) (b ∷ buf) h =
    let (out, w) = write_at-Wrote zero bytes buf (omega arith) in
    (v ∷ out, write_here v b bytes buf out w)
write_at-Wrote (suc i) bytes [] h = absurd (omega arith)
write_at-Wrote (suc i) bytes (b ∷ buf) h =
    let (out, w) = write_at-Wrote i bytes buf (omega arith) in
    (b ∷ out, write_further i b bytes buf out w)

-- `put` of a u64 into a slot that the data has does not panic and keeps the data's length; `get` of that
-- slot gives the value back, and `get` of any other slot gives what it gave before.
pub get-put :
    (buf : List ℕ) (slot v : ℕ)
    → slot * 8 + 8 ≤ length buf
    → v < 2 ^ 64
    → (out : List ℕ) × (put buf slot v ≡ some out)
      × (length out ≡ length buf)
      × (get out slot ≡ some v)
      × ((other : ℕ) → other ≢ slot → get out other ≡ get buf other)
unfolding put get
get-put buf slot v h lt =
    let (out, w) =
      write_at-Wrote (slot * 8) (le_bytes 8 v) buf (omega (arith, length-le_bytes 8 v)) in
    (
      out,
      w.ran,
      w.same_length,
      ground (arith, w.own, length-le_bytes 8 v, read_le-le_bytes 8 v (omega arith)),
      λ other ne. elim (dec_lt other slot) [
        | yes below ↦ w.before (other * 8) 8 (omega arith)
        | no above ↦ w.after (other * 8) 8 (omega (arith, length-le_bytes 8 v))
      ],
    )

read_le-append :
    (n : ℕ) (buf old : List ℕ) (v : ℕ)
    → read_le zero n buf ≡ some v
    → read_le zero n (buf ++ old) ≡ some v
unfolding read_le
read_le-append zero buf old v e = e
read_le-append (suc n) [] old v e = ground arith
read_le-append (suc n) (b ∷ buf) old v e = elim (Option-cases (read_le zero n buf)) [
  | inl q ↦ ground (arith, rw q at e)
  | inr (w, q) ↦ rw (read_le-append n buf old w q) (rw q at e)
]

-- What stands behind does not change the first slot.
pub get-append : (buf old : List ℕ) (v : ℕ) → get buf 0 ≡ some v → get (buf ++ old) 0 ≡ some v
unfolding get
get-append buf old v e = read_le-append 8 buf old v e

-- The echo server's two stamps fit into every payload of at least `header_len` bytes: they do not panic,
-- keep its length and its sequence number in slot 0, and the reply handler reads both back.
pub stamp_lem :
    (buf : List ℕ) (t1 t2 : ℕ)
    → header_len ≤ length buf
    → t1 < 2 ^ 64
    → t2 < 2 ^ 64
    → (out : List ℕ) × (stamp t1 t2 buf ≡ some out)
      × (length out ≡ length buf)
      × (get out 0 ≡ get buf 0)
      × (get out 1 ≡ some t1)
      × (get out 2 ≡ some t2)
unfolding stamp
stamp_lem buf t1 t2 h a b =
    let (mid, p, l, own, others) = get-put buf 1 t1 (omega arith) a in
    let (out, p', l', own', others') = get-put mid 2 t2 (omega (arith, l)) b in
    (
      out,
      ap (λ o. then_put o 2 t2) p ∙ p',
      l' ∙ l,
      others' 0 (omega arith) ∙ others 0 (omega arith),
      others' 1 (omega arith) ∙ own,
      own',
    )
