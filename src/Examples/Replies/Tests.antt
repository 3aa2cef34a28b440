-- ===== src/Examples/Replies/Tests.antt =====
-- A payload of header alone, with sequence number 5, to a server that has kept nothing.
use strong_ipc.Prelude.{ℕ, ◌≡◌, refl, Option, some, none, List, [], ◌∷◌, length, arith}
use strong_ipc.Message.{SocketId, from_data}
use strong_ipc.Shards.{DashMap, functions}
use strong_ipc.Examples.Slots.{put}
use strong_ipc.Examples.Echo.{Echo, answer, reply_ref}
use strong_ipc.Examples.Variants.{handle_stamped}
use strong_ipc.Examples.Replies.{reply_stamps}
use strong_ipc.Examples.Replies.Laws.{round_trip}
use strong_ipc.Capability.Registry.Steps.{init}

abbrev d : DashMap ℕ
d = functions ℕ

abbrev blank : List ℕ
blank =
    0 ∷ 0 ∷ 0 ∷ 0 ∷ 0 ∷ 0 ∷ 0 ∷ 0 ∷ 0 ∷ 0 ∷ 0 ∷ 0 ∷ 0 ∷ 0 ∷ 0 ∷ 0 ∷ 0 ∷ 0 ∷ 0 ∷ 0 ∷ 0 ∷ 0 ∷ 0 ∷ 0
    ∷ []

abbrev ping : List ℕ
ping =
    5 ∷ 0 ∷ 0 ∷ 0 ∷ 0 ∷ 0 ∷ 0 ∷ 0 ∷ 0 ∷ 0 ∷ 0 ∷ 0 ∷ 0 ∷ 0 ∷ 0 ∷ 0 ∷ 0 ∷ 0 ∷ 0 ∷ 0 ∷ 0 ∷ 0 ∷ 0 ∷ 0
    ∷ []

abbrev server : Echo d
server = record { reg = init d (λ x. (7, x)); cached = none }

abbrev stat : ℕ → Option SocketId
stat fd = none

round_trip_example :
    (out : List ℕ) × (handle_stamped d stat 1_000 70_000 ping (3 ∷ []) server
      ≡ some (answer d (from_data out) (reply_ref d stat (3 ∷ []) server)))
    × (length out ≡ 24)
    × (reply_stamps 90_000 out ≡ some (some (5, 1_000, 70_000, 90_000)))
unfolding put
round_trip_example =
    round_trip d stat blank ping (3 ∷ []) 5 1_000 70_000 90_000 server (omega arith) (omega arith)
      (omega arith) (omega arith) refl refl
