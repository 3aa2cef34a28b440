-- ===== src/Examples/Replies.antt =====
-- The other handlers of examples/: the servers of echo.rs, bound_echo.rs and bound_server.rs, which answer
-- once on the capability that the message brings, and the clients' ends, which read the replies.
-- Channels out of a handler are unbounded; their sends are what the handler returns.
pub mod Laws
mod Tests
use strong_ipc.Prelude.{
  ℕ, zero, suc, ◌+◌, Bool, false, Option, none, some, List, [], ◌∷◌, ◌||◌, length, ltb,
  if◌then◌else◌,
}
use strong_ipc.Message.{SocketId, Ref, Message, from_data, add_ref}
use strong_ipc.Io.{IoResult, ok, err}
use strong_ipc.Shards.{DashMap}
use strong_ipc.Capability.Registry.{Reg, from_fd}
use strong_ipc.Capability.Send.{TrySend, done, failed}
use strong_ipc.Binding.Accept.{close_all}
use strong_ipc.Examples.Ordering.{u64}
use strong_ipc.Examples.Slots.{header_len, get}
use strong_ipc.Examples.Echo.{Action, silent, replies, same_bytes, let_go}

-- `SEQ_BYTES`
abbrev pub seq_bytes : ℕ
seq_bytes = 8

-- `ReplyHandler::handle` of paced.rs, at the instant `now`: what it sends on; the outer `none` is a panic.
abbrev pub with_instant : ℕ → Option ℕ → Option (Option (ℕ × ℕ))
with_instant now none = none
with_instant now (some seq) = some (some (seq, now))

unfoldable pub reply_seq : ℕ → List ℕ → Option (Option (ℕ × ℕ))
unfolding get
reply_seq now bytes =
    if ltb (length bytes) seq_bytes then some none else with_instant now (get bytes 0)

-- `ReplyHandler::handle` of timeline.rs, entered at `t3`
abbrev pub forward : Option ℕ → Option ℕ → Option ℕ → ℕ → Option (Option (ℕ × ℕ × ℕ × ℕ))
forward (some a) (some b) (some c) t3 = some (some (a, b, c, t3))
forward none b c t3 = none
forward (some a) none c t3 = none
forward (some a) (some b) none t3 = none

unfoldable pub reply_stamps : ℕ → List ℕ → Option (Option (ℕ × ℕ × ℕ × ℕ))
unfolding get
reply_stamps t3 bytes =
    if ltb (length bytes) header_len
    then some none
    else forward (get bytes 0) (get bytes 1) (get bytes 2) t3

-- `ReplyHandler` of bench.rs
pub record Tally : Type 0 where
  pub received : ℕ
  pub bytes_in : ℕ

unfoldable pub tally : List ℕ → Tally → ℕ × Tally
tally bytes t = (
  length bytes,
  record { received = u64 (t.received + 1); bytes_in = u64 (t.bytes_in + length bytes) },
)

-- `recv_reply` of paced.rs: what each of its two sources gave in time, where it is asked
abbrev pub read_raw : ℕ → List ℕ → ℕ → Option (ℕ × ℕ)
read_raw now buf n =
    if ltb n seq_bytes then none else elim (get buf 0) [ none ↦ none | some seq ↦ some (seq, now) ]

abbrev pub raw_reply : ℕ → List ℕ → Option (IoResult ℕ) → Option (ℕ × ℕ)
raw_reply now buf none = none
raw_reply now buf (some (err e)) = none
raw_reply now buf (some (ok n)) = read_raw now buf n

-- `recv_reply`: from the raw socket if there is one, else what the reply handler's channel gave
unfoldable pub recv_reply :
    ℕ → List ℕ → Option (Option (IoResult ℕ)) → Option (ℕ × ℕ) → Option (ℕ × ℕ)
unfolding get
recv_reply now buf none from_rx = from_rx
recv_reply now buf (some outcome) from_rx = raw_reply now buf outcome

-- `flag` and `arg` of paced.rs; `parse` is `FromStr`.
abbrev pub flag : List (List ℕ) → List ℕ → Bool
flag [] name = false
flag (a ∷ args) name = same_bytes a name || flag args name

module _ {ℓ} {A : Type ℓ} (parse : List ℕ → Option A) where
  abbrev pub unwrap_or : Option A → A → A
  unwrap_or none default = default
  unwrap_or (some a) default = a

  abbrev pub parse_next : List (List ℕ) → A → A
  parse_next [] default = default
  parse_next (v ∷ rest) default = unwrap_or (parse v) default

  pub arg : List (List ℕ) → List ℕ → A → A
  arg [] name default = default
  arg (a ∷ args) name default =
      let later = arg args name default in
      if same_bytes a name then parse_next args default else later

-- `Client::message` of bench.rs: the reply node's capability, `n` times
pub attach : ℕ → Ref → Message → Message
unfolding add_ref
attach zero reply m = m
attach (suc n) reply m = attach n reply (add_ref m reply)

unfoldable pub client_message : List ℕ → ℕ → Ref → Message
unfolding attach from_data
client_message bytes with_cap reply = attach with_cap reply (from_data bytes)

module _ (d : DashMap ℕ) where
  -- `EchoHandler::handle` of echo.rs, and of bound_echo.rs: the first descriptor becomes a `Ref`, which
  -- the echo is sent on, the other descriptors and then that `Ref` are dropped. What `try_send` gives is
  -- `tried`; `none` is a panic, of either `unwrap`.
  abbrev pub unwrapped : TrySend → Action × Reg d → Option (Action × Reg d)
  unwrapped done r = some r
  unwrapped (failed e) r = none

  unfoldable pub echo_once :
      (ℕ → Option SocketId) → TrySend → List ℕ → List ℕ → Reg d → Option (Action × Reg d)
  unfolding from_fd let_go from_data
  echo_once stat tried bytes [] s = none
  echo_once stat tried bytes (fd ∷ rest) s =
      let (a, r) = from_fd d (stat fd) fd (close_all d rest s) in
      unwrapped tried (replies (r.inner a).fd (from_data bytes), let_go d a r)

  -- `EchoHandler::handle` of bound_server.rs; `lossy` is `String::from_utf8_lossy`.
  unfoldable pub echo_text :
      (List ℕ → List ℕ)
      → (ℕ → Option SocketId)
      → TrySend
      → List ℕ
      → List ℕ
      → Reg d
      → Option (Action × Reg d)
  unfolding echo_once
  echo_text lossy stat tried bytes [] s = some (silent, s)
  echo_text lossy stat tried bytes (fd ∷ rest) s = echo_once stat tried (lossy bytes) (fd ∷ rest) s
