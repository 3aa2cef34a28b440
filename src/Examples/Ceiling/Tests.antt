-- ===== src/Examples/Ceiling/Tests.antt =====
-- Two bytes to a fresh server, over a socket that takes everything.
use strong_ipc.Prelude.{ℕ, refl, some, none, [], ◌∷◌, ℕ_discrete, arith}
use strong_ipc.Io.{IoResult, ok}
use strong_ipc.Message.{SocketId, Ref, Message, payload}
use strong_ipc.Channel.{lanes}
use strong_ipc.Wire.Sizes.{max_message_size}
use strong_ipc.Wire.Taking.{taking}
use strong_ipc.Node.{Datagram}
use strong_ipc.Node.Memory.{memory, zeros, length-zeros}
use strong_ipc.Shards.{DashMap, functions}
use strong_ipc.Capability.Registry.{Reg}
use strong_ipc.Capability.Registry.Steps.{Reach, start, later, receive}
use strong_ipc.Examples.Echo.{Echo}
use strong_ipc.Examples.Replies.{client_message}
use strong_ipc.Examples.Ceiling.{filled, probe, reply_to}
use strong_ipc.Examples.Ceiling.Laws.{Probed, probe-Probed}

abbrev d : DashMap ℕ
d = functions ℕ

abbrev ident : ℕ → SocketId
ident x = (7, x)

record Run : Type 0 where
  last : Reg d
  reach : Reach d ident last

arrived : Run
unfolding ℕ_discrete
arrived = record { last = _; reach = later start (receive 3 20 refl (λ g y e. cc)) }

abbrev server : Echo d
server = record { reg = arrived.last; cached = none }

abbrev cap : Ref
cap = record { addr = 0; fd = 3; id = none }

abbrev dress : Message → Datagram
dress m = record { content = payload m; rights = 3 ∷ []; creds = none }

abbrev register : taking.World → IoResult Unit × taking.World
register w = (ok tt, w)

probe-Probed_example :
    Probed taking (lanes Message) register 5 2 (client_message (filled 2) 1 cap) none [] (
      probe taking
        (lanes Message)
        register
        5
        cap
        2
        (reply_to memory d dress
          (zeros max_message_size)
          (zeros max_message_size)
          (λ fd. some (7, 20))
          server
          (record { received = 0; bytes_in = 0 })
          (client_message (filled 2) 1 cap))
        none
        [])
unfolding arrived
probe-Probed_example =
    probe-Probed taking (lanes Message) register memory d dress (λ m. refl) ident server
      arrived.reach 5 2 cap none [] (zeros max_message_size) (zeros max_message_size)
      (λ fd. some (7, 20)) (record { received = 0; bytes_in = 0 }) 3 20 (omega arith) (omega arith)
      (length-zeros max_message_size) (length-zeros max_message_size) refl refl
      (λ a lt. absurd (omega arith)) refl (λ c e. absurd (ground arith))
