-- ===== src/Examples/Slots.antt =====
-- The header of examples/timeline.rs: u64 slots, little-endian, at the front of a payload that the echo
-- server stamps and the reply handler reads.
pub mod Laws
use Prim.Native.Nat.{◌/◌}
use strong_ipc.Prelude.{
  ℕ, zero, suc, ◌+◌, ◌*◌, ◌%◌, ◌<◌, Option, none, some, List, [], ◌∷◌, length, ltb, if◌then◌else◌,
}

-- `HDR`
abbrev pub header_len : ℕ
header_len = 24

-- `v.to_le_bytes()`, as `n` bytes
pub le_bytes : ℕ → ℕ → List ℕ
le_bytes zero v = []
le_bytes (suc n) v = v % 256 ∷ le_bytes n (v / 256)

-- `u64::from_le_bytes(buf[i..i + n])`; a slice that reaches past the end panics.
pub read_le : ℕ → ℕ → List ℕ → Option ℕ
read_le zero zero buf = some 0
read_le zero (suc n) [] = none
read_le zero (suc n) (b ∷ buf) = elim (read_le zero n buf) [
  | none ↦ none
  | some v ↦ some (b + 256 * v)
]
read_le (suc i) n [] = none
read_le (suc i) n (b ∷ buf) = read_le i n buf

-- `data[i..i + len].copy_from_slice(bytes)`
pub write_at : ℕ → List ℕ → List ℕ → Option (List ℕ)
write_at zero [] buf = some buf
write_at zero (v ∷ bytes) [] = none
write_at zero (v ∷ bytes) (b ∷ buf) = elim (write_at zero bytes buf) [
  | none ↦ none
  | some rest ↦ some (v ∷ rest)
]
write_at (suc i) bytes [] = none
write_at (suc i) bytes (b ∷ buf) = elim (write_at i bytes buf) [
  | none ↦ none
  | some rest ↦ some (b ∷ rest)
]

unfoldable pub get : List ℕ → ℕ → Option ℕ
unfolding read_le
get buf slot = read_le (slot * 8) 8 buf

unfoldable pub put : List ℕ → ℕ → ℕ → Option (List ℕ)
unfolding write_at le_bytes
put buf slot v = write_at (slot * 8) (le_bytes 8 v) buf

-- The stamps of `EchoHandler::handle`, entered at `t1` and about to send at `t2`; `none` is a panic.
abbrev pub then_put : Option (List ℕ) → ℕ → ℕ → Option (List ℕ)
then_put none slot v = none
then_put (some buf) slot v = put buf slot v

unfoldable pub stamp : ℕ → ℕ → List ℕ → Option (List ℕ)
unfolding put
stamp t1 t2 buf = then_put (put buf 1 t1) 2 t2
