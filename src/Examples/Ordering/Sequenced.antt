-- ===== src/Examples/Ordering/Sequenced.antt =====
-- The messages of examples/ordering.rs as the checker gets them.
use Prim.Native.Nat.{◌/◌}
use strong_ipc.Prelude.{
  ℕ, zero, suc, ◌+◌, ◌-◌, ◌*◌, ◌≤◌, ◌<◌, ◌^◌, ◌≡◌, refl, ap, true, false, some, List, [], ◌∷◌,
  length, All, arith,
}
use strong_ipc.Examples.Ordering.Laws.{total_fds, HasHeader, IsMessage, InOrder, passes_iff}
use strong_ipc.Examples.Ordering.{
  messages, tag_of, has_other, SeqChecker, fresh, Arrival, run, passes, sequenced, repeat_byte,
  payload_len, u8,
}

pub length-repeat_byte : (n b : ℕ) → length (repeat_byte n b) ≡ n
unfolding repeat_byte
length-repeat_byte zero b = refl
length-repeat_byte (suc n) b = omega (arith, length-repeat_byte n b)

has_other-repeat_byte : (n b : ℕ) → has_other b (repeat_byte n b) ≡ false
unfolding repeat_byte
has_other-repeat_byte zero b = refl
has_other-repeat_byte (suc n) b = ground (arith, has_other-repeat_byte n b)

-- What a node gets of message `seq`: its data, and the one capability that is attached
abbrev pub arrival : ℕ → Arrival
arrival seq = record { data_bytes = sequenced seq; fds = 1 }

le_bytes :
    (seq : ℕ)
    → seq < 2 ^ 32
    → u8 seq
        + 256 * u8 (seq / 256)
        + 65_536 * u8 (seq / 65_536)
        + 16_777_216 * u8 (seq / 16_777_216)
      ≡ seq
le_bytes seq h = omega arith

sequenced-IsMessage : (seq : ℕ) → seq < 2 ^ 32 → IsMessage seq (arrival seq)
unfolding sequenced
sequenced-IsMessage seq h =
    let tail = repeat_byte (payload_len - 4) (tag_of seq) in
    (
      tail,
      ap (λ n. some (n, tail)) (le_bytes seq h),
      has_other-repeat_byte (payload_len - 4) (tag_of seq),
    )

-- The `n` messages from `seq` on
abbrev pub arrivals : ℕ → ℕ → List Arrival
arrivals zero seq = []
arrivals (suc n) seq = arrival seq ∷ arrivals n (seq + 1)

pub record Sent (n seq : ℕ) (ms : List Arrival) : Type 0 where
  pub headers : All HasHeader ms
  pub count : length ms ≡ n
  pub fds : total_fds ms ≡ n
  pub order : InOrder seq ms

pub arrivals-Sent : (n seq : ℕ) → seq + n ≤ 2 ^ 32 → Sent n seq (arrivals n seq)
arrivals-Sent zero seq h = record { headers = tt; count = refl; fds = refl; order = tt }
arrivals-Sent (suc n) seq h =
    let v = arrivals-Sent n (seq + 1) (omega arith) in
    let m = sequenced-IsMessage seq (omega arith) in
    record {
      headers = ((_, m.1), v.headers);
      count = omega (arith, v.count);
      fds = omega (arith, v.fds);
      order = (m, v.order);
    }

-- The messages that the program sends, if each arrives once, in order and with its capability, pass.
pub sequenced_passes :
    (t : SeqChecker) × (run (arrivals messages 0) fresh ≡ some t) × (passes t ≡ true)
sequenced_passes =
    let v = arrivals-Sent messages 0 (omega arith) in
    let (t, r, p) =
      passes_iff (arrivals messages 0) v.headers (omega (arith, v.count)) (omega (arith, v.fds)) in
    (t, r, p.1 (v.count, v.fds, v.order))
