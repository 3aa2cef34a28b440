-- ===== src/Capability/Tests.antt =====
-- The theorems on `from_fd`, `is_same` and `try_send` applied to small cases.
use strong_ipc.Prelude.{
  ℕ, zero, suc, ◌≡◌, ◌≢◌, ◌↔◌, refl, true, false, Option, none, some, List, [], ◌∷◌, ◌++◌, arith,
  ℕ_discrete,
}
use strong_ipc.Message.{SocketId, Message, SendFd}
use strong_ipc.Io.{IoResult, ok, err, would_block, from_kind}
use strong_ipc.Shards.{DashMap, functions, SocketId-discrete}
use strong_ipc.Channel.{lanes}
use strong_ipc.Outbox.{Outbox, build}
use strong_ipc.Wire.Send.{Sockets, send_now}
use strong_ipc.Outbox.View.{queue_of}
use strong_ipc.Capability.Send.{try_send, done}
use strong_ipc.Capability.Send.Laws.{Outcome, try_send-Outcome, try_send-oversized}
use strong_ipc.Capability.Wait.{waits, send}
use strong_ipc.Capability.Registry.{filed, Reg, from_fd, is_same}
use strong_ipc.Capability.Registry.Steps.{receive, intern, Reach, start, later}
use strong_ipc.Capability.Registry.Identity.{is_same_iff_socket, Sends, from_fd-Sends, entries_open}

abbrev d : DashMap ℕ
d = functions ℕ

abbrev ident : ℕ → SocketId
ident x = (7, x)

record Run : Type 0 where
  last : Reg d
  reach : Reach d ident last

-- Descriptors 3 and 4 of sockets 20 and 21 arrive, and each becomes a `Ref`.
two_refs : Run
unfolding from_fd ℕ_discrete SocketId-discrete
two_refs = record {
  last = _;
  reach =
      later
        (later
          (later (later start (receive 3 20 refl (λ g y e. cc)))
            (intern 3 20 (some (7, 20)) refl (λ a lt. absurd (omega arith)) refl))
          (receive 4 21 refl (λ g y e q. ground arith)))
        (intern 4 21 (some (7, 21)) refl (λ a lt p. ground arith) refl);
}

-- Descriptor 5 is a second one for socket 20.
dup_arrives : Run
unfolding two_refs
dup_arrives = record {
  last = _;
  reach = later two_refs.reach (receive 5 20 refl (λ g y e q. ground arith));
}

from_fd-Sends_example :
    Sends d ident dup_arrives.reach 20 (from_fd d (some (7, 20)) 5 dup_arrives.last)
unfolding dup_arrives
from_fd-Sends_example =
    from_fd-Sends d ident dup_arrives.reach 5 20 (some (7, 20)) refl (λ a lt p. ground arith) refl

is_same_iff_socket_example : (is_same 0 1 ≡ true) ↔ (◌≡◌ {A = Option ℕ} (some 20) (some 21))
unfolding two_refs
is_same_iff_socket_example =
    is_same_iff_socket d ident two_refs.reach 0 1 (7, 20) (7, 21) (omega arith) (omega arith) refl
      refl

entries_open_example :
    ((a : ℕ)
      → two_refs.last.refs (7, 20) ≡ some a
      → ((two_refs.last.inner a).phase ≡ filed)
        × ((x : ℕ) × (two_refs.last.table (two_refs.last.inner a).fd ≡ some x)
            × (ident x ≡ (7, 20))))
    × (((a : ℕ) → (two_refs.last.inner a).phase ≢ filed) → two_refs.last.refs (7, 20) ≡ none)
entries_open_example = entries_open d ident two_refs.reach (7, 20)

abbrev take_in : List ℕ → List (List ℕ) → IoResult Unit × List (List ℕ)
take_in bytes (a ∷ b ∷ w) = (err (from_kind would_block), a ∷ b ∷ w)
take_in bytes (a ∷ []) = (ok tt, a ∷ bytes ∷ [])
take_in bytes [] = (ok tt, bytes ∷ [])

-- A kernel that is a log of what it took, with room for two messages.
abbrev log : Sockets
log = record {
  World = List (List ℕ);
  Control = List ℕ;
  no_control = [];
  rights_of = λ c. c;
  space_rights = λ n. n;
  space_rights_credentials = λ n. n;
  push_rights = λ space l. some l;
  sendmsg = λ fd bytes c f w. take_in bytes w;
  rights_of_none = refl;
  space_le = λ m n h. h;
  push_fits = λ space l h. (l, refl, refl);
}

abbrev hello : Message
hello = record { data_bytes = 1 ∷ 2 ∷ []; fd_list = [] }

abbrev register : List (List ℕ) → IoResult Unit × List (List ℕ)
register w = (ok tt, w)

try_send-Outcome_example :
    Outcome log
      (lanes Message)
      register
      3
      hello
      none
      ([] ∷ [] ∷ [])
      (try_send log (lanes Message) register 3 hello none ([] ∷ [] ∷ []))
try_send-Outcome_example =
    try_send-Outcome log (lanes Message) register 3 hello none ([] ∷ [] ∷ []) (omega arith)

try_send_queues :
    queue_of (lanes Message) (try_send log (lanes Message) register 3 hello none ([] ∷ [] ∷ [])).1
    ≡ hello ∷ []
unfolding try_send send_now
try_send_queues = refl

abbrev copies : ℕ → List SendFd
copies zero = []
copies (suc n) = SendFd.owned 3 ∷ copies n

abbrev bundle : Message
bundle = record { data_bytes = 1 ∷ []; fd_list = copies 254 }

empty_box : Outbox (lanes Message)
unfolding build
empty_box = build (lanes Message)

try_send-oversized_example :
    (b : Outbox (lanes Message)) × (try_send log
        (lanes Message)
        register
        3
        bundle
        (some empty_box)
        []
      ≡ (done, some b, []))
    × (queue_of (lanes Message) (some b)
        ≡ queue_of (lanes Message) (some empty_box) ++ (bundle ∷ []))
unfolding empty_box
try_send-oversized_example =
    try_send-oversized log (lanes Message) register 3 bundle empty_box [] refl (omega arith) refl
      refl

-- A channel of one place that is taken
abbrev packed : Outbox (lanes Message)
packed = record {
  sender = record { capacity = 1; queued = hello ∷ []; permits = 0; is_closed = false };
  pending = 1;
}

send_waits : (send log (lanes Message) register 3 hello (some packed) []).0 ≡ waits hello
unfolding send try_send
send_waits = refl
