-- ===== src/Examples/Ordering.antt =====
-- examples/ordering.rs: sequenced messages, and the handler that checks what arrives. Its counters are
-- `AtomicU64`s, which wrap; the receive loop calls the handler for one message at a time.
pub mod Laws
pub mod Sequenced
pub mod Tail
mod Tests
use Prim.Native.Nat.{◌/◌}
use strong_ipc.Prelude.{
  ℕ, zero, suc, ◌+◌, ◌-◌, ◌*◌, ◌%◌, ◌^◌, Bool, true, false, not, ◌&&◌, ◌||◌, Option, none, some,
  List, [], ◌∷◌, ◌++◌, length, ◌==◌, if◌then◌else◌,
}

abbrev pub messages : ℕ
messages = 500_000

-- `PAYLOAD`
abbrev pub payload_len : ℕ
payload_len = 4096

abbrev pub u8 : ℕ → ℕ
u8 n = n % 256

abbrev pub u64 : ℕ → ℕ
u64 n = n % 2 ^ 64

-- `(seq as u8).wrapping_mul(31)`
abbrev pub tag_of : ℕ → ℕ
tag_of seq = u8 (u8 seq * 31)

-- `u32::to_le_bytes`, before what follows it
abbrev pub with_le_bytes : ℕ → List ℕ → List ℕ
with_le_bytes seq rest = u8 seq ∷ u8 (seq / 256) ∷ u8 (seq / 65_536) ∷ u8 (seq / 16_777_216) ∷ rest

pub repeat_byte : ℕ → ℕ → List ℕ
repeat_byte zero b = []
repeat_byte (suc n) b = b ∷ repeat_byte n b

-- The payload of message `seq`: its number, over the first four of `payload_len` tags
unfoldable pub sequenced : ℕ → List ℕ
unfolding repeat_byte
sequenced seq = with_le_bytes seq (repeat_byte (payload_len - 4) (tag_of seq))

-- `u32::from_le_bytes(data[..4])` and `data[4..]`; the slice panics on fewer than four bytes.
abbrev pub split_header : List ℕ → Option (ℕ × List ℕ)
split_header (a ∷ b ∷ c ∷ d ∷ rest) = some (a + 256 * b + 65_536 * c + 16_777_216 * d, rest)
split_header (a ∷ b ∷ c ∷ []) = none
split_header (a ∷ b ∷ []) = none
split_header (a ∷ []) = none
split_header [] = none

-- `.any(|b| *b != tag)`
abbrev pub has_other : ℕ → List ℕ → Bool
has_other tag [] = false
has_other tag (b ∷ rest) = not (b == tag) || has_other tag rest

pub record SeqChecker : Type 0 where
  pub next_expected : ℕ
  pub out_of_order : ℕ
  pub first_violation : Option (ℕ × ℕ)
  pub received : ℕ
  pub fds_seen : ℕ
  pub payload_corrupt : ℕ

abbrev pub fresh : SeqChecker
fresh = record {
  next_expected = 0;
  out_of_order = 0;
  first_violation = none;
  received = 0;
  fds_seen = 0;
  payload_corrupt = 0;
}

-- A call of the handler: the data, and how many descriptors came
pub record Arrival : Type 0 where
  pub data_bytes : List ℕ
  pub fds : ℕ

abbrev pub is_some : Option (ℕ × ℕ) → Bool
is_some none = false
is_some (some v) = true

-- The handler's first access, and its second. It runs on another thread than `main`.
abbrev pub count_message : SeqChecker → SeqChecker
count_message s = record s { received = u64 (s.received + 1) }

abbrev pub count_in : ℕ → SeqChecker → SeqChecker
count_in n s = let t = count_message s in record t { fds_seen = u64 (t.fds_seen + n) }

abbrev pub check_seq : ℕ → SeqChecker → SeqChecker
check_seq seq s =
    if s.next_expected == seq then record s { next_expected = seq + 1 } else record s {
      next_expected = seq + 1;
      out_of_order = u64 (s.out_of_order + 1);
      first_violation =
          if is_some s.first_violation then s.first_violation else some (s.next_expected, seq);
    }

abbrev pub check_tail : ℕ → List ℕ → SeqChecker → SeqChecker
check_tail tag rest s =
    if has_other tag rest then record s { payload_corrupt = u64 (s.payload_corrupt + 1) } else s

-- The rest of `handle`; `none` is the panic.
abbrev pub check : Option (ℕ × List ℕ) → SeqChecker → Option SeqChecker
check none s = none
check (some (seq, rest)) s = some (check_tail (tag_of seq) rest (check_seq seq s))

-- `SeqChecker::handle`
unfoldable pub handle : Arrival → SeqChecker → Option SeqChecker
handle m s = check (split_header m.data_bytes) (count_in m.fds s)

pub run : List Arrival → SeqChecker → Option SeqChecker
unfolding handle
run [] s = some s
run (m ∷ ms) s = elim (handle m s) [ none ↦ none | some t ↦ run ms t ]

-- The verdict of `main`
unfoldable pub passes : SeqChecker → Bool
passes s =
    s.received == messages
    && (s.out_of_order == 0 && (s.payload_corrupt == 0 && s.fds_seen == s.received))
