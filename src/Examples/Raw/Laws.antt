-- ===== src/Examples/Raw/Laws.antt =====
-- The two transports of the paced run report the same of the same payload.
use strong_ipc.Prelude.{
  ℕ, zero, suc, ◌^◌, ◌≤◌, ◌<◌, ◌≡◌, ◌≢◌, refl, ap, ◌∙◌, Bool, true, false, none, some, List, [],
  ◌∷◌, ◌++◌, map, length, take, All, arith,
}
use Prim.Native.Nat.{min, max}
use strong_ipc.Examples.Slots.{get}
use strong_ipc.Examples.Slots.Laws.{get-put, get-append}
use strong_ipc.Examples.Replies.{seq_bytes, reply_seq, recv_reply}
use strong_ipc.Io.{ok}
use strong_ipc.Examples.Ceiling.Laws.{length-filled}
use strong_ipc.Examples.Raw.{
  buf_len, Turn, came, echo_raw, raw_echo, max_payload, payload_of, stamp_seq,
}

take_all : (n : ℕ) (l : List ℕ) → length l ≤ n → take n l ≡ l
take_all zero [] h = refl
take_all zero (a ∷ l) h = absurd (omega arith)
take_all (suc n) [] h = refl
take_all (suc n) (a ∷ l) h = ap (◌∷◌ a) (take_all n l (omega arith))

-- A message that the buffer takes
abbrev pub IsWhole : List ℕ → Type 0
IsWhole bytes = (bytes ≢ []) × (length bytes ≤ buf_len)

echo_raw-IsWhole :
    (bytes : List ℕ) (rest : Bool × List (List ℕ))
    → IsWhole bytes
    → echo_raw (take buf_len bytes) true rest ≡ (rest.0, bytes ∷ rest.1)
echo_raw-IsWhole [] rest h = absurd (h.0 refl)
echo_raw-IsWhole (b ∷ bytes) rest h = rw (take_all buf_len (b ∷ bytes) h.1) refl

pub raw_echo-came :
    (messages : List (List ℕ)) (turns : List Turn)
    → All IsWhole messages
    → raw_echo (map (λ bytes. came bytes true) messages ++ turns)
      ≡ ((raw_echo turns).0, messages ++ (raw_echo turns).1)
unfolding raw_echo
raw_echo-came [] turns h = refl
raw_echo-came (bytes ∷ messages) turns h =
    rw (raw_echo-came messages turns h.1) (echo_raw-IsWhole bytes _ h.0)

both_seq :
    (now seq : ℕ) (bytes old : List ℕ)
    → seq_bytes ≤ length bytes
    → get bytes 0 ≡ some seq
    → (reply_seq now bytes ≡ some (some (seq, now)))
      × (recv_reply now (bytes ++ old) (some (some (ok (length bytes)))) none ≡ some (seq, now))
unfolding reply_seq recv_reply
both_seq now seq bytes old h e =
    (rw e (ground (arith, h)), rw (get-append bytes old seq e) (ground (arith, h)))

-- A payload of any `--payload` takes any sequence number of 64 bits without a panic. The raw server answers
-- it whole and goes on, and both transports report that number, and the time, of what comes back: the raw
-- socket's `recv_reply`, whatever else its buffer holds, and the library's reply handler.
pub stamp_seq-both :
    (n seq now : ℕ) (old : List ℕ)
    → seq < 2 ^ 64
    → (bytes : List ℕ) × (stamp_seq n seq ≡ some bytes)
      × (raw_echo (came bytes true ∷ []) ≡ (false, bytes ∷ []))
      × (recv_reply now (bytes ++ old) (some (some (ok (length bytes)))) none ≡ some (seq, now))
      × (reply_seq now bytes ≡ some (some (seq, now)))
unfolding stamp_seq raw_echo
stamp_seq-both n seq now old h =
    let size = min (max n seq_bytes) max_payload in
    let (bytes, e, len, front, others) =
      get-put (payload_of n) 0 seq (omega (arith, length-filled size)) h in
    let whole : length bytes ≡ size = len ∙ length-filled size in
    let (ipc, raw) = both_seq now seq bytes old (omega (arith, whole)) front in
    (
      bytes,
      e,
      raw_echo-came (bytes ∷ []) []
          (((λ z. omega (arith, ap length z, whole)), omega (arith, whole)), tt),
      raw,
      ipc,
    )
