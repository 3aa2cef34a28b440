-- ===== src/Examples/Raw.antt =====
-- The floor of examples/paced.rs and examples/bench.rs: the same payload over a bare seqpacket socket. What
-- the socket gives is data; a message longer than the buffer is cut by the kernel.
pub mod Laws
mod Tests
use strong_ipc.Prelude.{
  ℕ, zero, suc, Bool, true, false, Option, none, some, List, [], ◌∷◌, length, take, ltb,
  if◌then◌else◌, ◌>>=◌,
}
use Prim.Native.Nat.{min, max}
use strong_ipc.Examples.Slots.{put}
use strong_ipc.Examples.Replies.{seq_bytes}
use strong_ipc.Examples.Ceiling.{filled}

-- The length of the buffer that the server receives into
abbrev pub buf_len : ℕ
buf_len = 65536

-- What one turn of the server's loop meets: `recv` fails, or gives a message, of which the buffer takes a
-- part, and then the answer's `send` works or not.
pub data Turn : Type 0 where
  broken : Turn
  came : List ℕ → Bool → Turn

-- A connection of `raw_echo`: whether its task has returned, and what it has answered
abbrev pub answered : List ℕ → Bool × List (List ℕ) → Bool × List (List ℕ)
answered bytes (left, l) = (left, bytes ∷ l)

abbrev pub echo_raw : List ℕ → Bool → Bool × List (List ℕ) → Bool × List (List ℕ)
echo_raw [] sent rest = (true, [])
echo_raw (b ∷ bytes) true rest = answered (b ∷ bytes) rest
echo_raw (b ∷ bytes) false rest = (true, [])

pub raw_echo : List Turn → Bool × List (List ℕ)
raw_echo [] = (false, [])
raw_echo (broken ∷ turns) = (true, [])
raw_echo (came bytes sent ∷ turns) = echo_raw (take buf_len bytes) sent (raw_echo turns)

-- The listener's loop: each connection has a task of its own, until `accept` fails.
pub accept_raw : List (Option (List Turn)) → List (Bool × List (List ℕ))
unfolding raw_echo
accept_raw [] = []
accept_raw (none ∷ l) = []
accept_raw (some turns ∷ l) = raw_echo turns ∷ accept_raw l

-- `MAX_PAYLOAD`
abbrev pub max_payload : ℕ
max_payload = 8192

-- The payload, its length given by `--payload`, and the sequence number that each message has in front
abbrev pub payload_of : ℕ → List ℕ
payload_of n = filled (min (max n seq_bytes) max_payload)

unfoldable pub stamp_seq : ℕ → ℕ → Option (List ℕ)
unfolding put
stamp_seq n seq = put (payload_of n) 0 seq
