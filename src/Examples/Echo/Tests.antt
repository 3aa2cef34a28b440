-- ===== src/Examples/Echo/Tests.antt =====
-- A message with descriptors 3 and 4 comes to a server that has kept nothing yet.
use strong_ipc.Prelude.{ℕ, refl, none, some, [], ◌∷◌, ℕ_discrete, arith}
use strong_ipc.Message.{SocketId}
use strong_ipc.Shards.{DashMap, functions}
use strong_ipc.Capability.Registry.{Reg}
use strong_ipc.Capability.Registry.Steps.{Reach, start, later, receive}
use strong_ipc.Examples.Echo.{Echo, handle}
use strong_ipc.Examples.Echo.Laws.{Serves, handle-Serves}

abbrev d : DashMap ℕ
d = functions ℕ

abbrev ident : ℕ → SocketId
ident x = (7, x)

record Run : Type 0 where
  last : Reg d
  reach : Reach d ident last

arrived : Run
unfolding ℕ_discrete
arrived = record {
  last = _;
  reach =
      later (later start (receive 3 20 refl (λ g y e. cc)))
        (receive 4 21 refl (λ g y e q. ground arith));
}

abbrev server : Echo d
server = record { reg = arrived.last; cached = none }

handle-Serves_example :
    Serves d ident server arrived.reach 20
      (104 ∷ 105 ∷ [])
      (4 ∷ [])
      (handle d (λ fd. some (7, 20)) (104 ∷ 105 ∷ []) (3 ∷ 4 ∷ []) server)
unfolding arrived
handle-Serves_example =
    handle-Serves d ident server arrived.reach (λ fd. some (7, 20)) (104 ∷ 105 ∷ []) 3 20 (4 ∷ [])
      refl refl (λ a lt. absurd (omega arith)) refl
      (((λ a lt. absurd (omega arith)), λ e. ground arith), tt) (λ c e. absurd (ground arith))
