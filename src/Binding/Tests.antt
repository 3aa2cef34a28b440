-- ===== src/Binding/Tests.antt =====
-- Bindings 0, 1 and 2 at one path: 0 is up, 1 has opened the lock file.
use strong_ipc.Prelude.{ℕ, ◌≡◌, ◌≢◌, refl, true, none, some, [], ◌∷◌, ℕ_discrete, arith}
use strong_ipc.Io.{ok, err}
use strong_ipc.Message.{SocketId, Ref, payload, borrowed}
use strong_ipc.Shards.{DashMap, functions, SocketId-discrete}
use strong_ipc.Wire.Recv.{recv_now}
use strong_ipc.Capability.Registry.{Reg, from_fd}
use strong_ipc.Capability.Registry.Steps.{
  receive, intern, Reach as Reached, start as none_yet, later as lately,
}
use strong_ipc.Binding.Accept.{greeting, accept_loop, delivered, no_ref, connect}
use strong_ipc.Binding.Accept.Laws.{connect-greeting}
use strong_ipc.Binding.Paths.{Files, views}
use strong_ipc.Binding.{
  listening, Dir, opens, locks, clears, binds, registers, killed, held, setup, Reach, start, later,
  Steps,
}
use strong_ipc.Binding.Invariant.{one_binding}
use strong_ipc.Binding.New.{acquire_lock, new_binding}
use strong_ipc.Binding.Recovery.{Fate, new_binding-Recovers}
use strong_ipc.Binding.Races.{two_bindings, unlinked_successor}

abbrev k : Files
k = views

record Run : Type 0 where
  last : Dir k
  reach : Reach k last

one_up : Run
unfolding ℕ_discrete
one_up = record {
  last = _;
  reach =
      later
        (later
          (later
            (later (later (later start (setup (opens 0 refl))) (setup (locks 0 0 refl refl)))
              (setup (clears 0 0 refl)))
            (setup (binds 0 0 refl refl)))
          (setup (registers 0 0 refl)))
        (setup (opens 1 refl));
}

one_binding_example :
    (◌≡◌ {A = ℕ} 0 0)
    × ((k.view one_up.last.files).socket ≡ some 0)
    × ((k.view one_up.last.files).lock ≡ some 0)
unfolding one_up
one_binding_example = one_binding k 0 0 0 0 one_up.reach refl refl

two_bindings_example :
    (t : Dir k) × Steps k one_up.last t
    × (t.pc 1 ≡ listening 0)
    × (t.pc 2 ≡ listening 1)
    × (◌≢◌ {A = ℕ} 0 1)
    × ((k.view t.files).socket ≡ some 2)
unfolding one_up
two_bindings_example = two_bindings k 0 1 2 0 one_up.reach refl refl refl

unlinked_successor_example :
    (t : Dir k) × Steps k one_up.last t × (t.pc 2 ≡ listening 1) × ((k.view t.files).socket ≡ none)
unfolding one_up
unlinked_successor_example = unlinked_successor k 0 2 0 one_up.reach refl refl

-- A `Ref` to socket 20 over descriptor 3, and descriptor 5 for the same socket, which has just arrived
abbrev d : DashMap ℕ
d = functions ℕ

abbrev ident : ℕ → SocketId
ident x = (7, x)

record Arrived : Type 0 where
  last : Reg d
  reach : Reached d ident last

dup_arrived : Arrived
unfolding from_fd ℕ_discrete SocketId-discrete
dup_arrived = record {
  last = _;
  reach =
      lately
        (lately (lately none_yet (receive 3 20 refl (λ g y e. cc)))
          (intern 3 20 (some (7, 20)) refl (λ a lt. absurd (omega arith)) refl))
        (receive 5 20 refl (λ g y e q. ground arith));
}

abbrev bound_ref : Ref
bound_ref = record { addr = 0; fd = 3; id = some (7, 20) }

connect-greeting_example :
    (accept_loop bound_ref (ok 8 ∷ ok 9 ∷ [])
      ≡ (8, greeting bound_ref) ∷ (9, greeting bound_ref) ∷ [])
    × (payload (greeting bound_ref) ≡ [])
    × (borrowed (greeting bound_ref) ≡ 3 ∷ [])
    × ((connect d
          (λ fd. some (7, 20))
          (ok 6)
          (recv_now (ok (delivered (λ fd. 5) (greeting bound_ref))))
          dup_arrived.last).0
        ≡ ok 0)
    × (connect d
          (λ fd. some (7, 20))
          (ok 6)
          (recv_now (ok (record { bytes = 0; ancillary = [] })))
          dup_arrived.last
        ≡ (err no_ref, dup_arrived.last))
unfolding dup_arrived
connect-greeting_example =
    connect-greeting d ident dup_arrived.reach bound_ref (λ fd. 5) 6 20 (7, 20) (ok 8 ∷ ok 9 ∷ [])
      (λ fd. some (7, 20)) (omega arith) refl refl refl refl

-- The process of binding 0 is killed: it leaves the lock file and the path behind.
killed_one : Run
unfolding one_up
killed_one = record { last = _; reach = later one_up.reach (setup (killed 0 0 refl)) }

all_free : (j : ℕ) → held (killed_one.last.pc j) ≡ none
unfolding killed_one
all_free j = ground arith

new_binding-Recovers_example :
    ((acquire_lock k 2 true killed_one.last.files).0 ≡ some 0)
    × Fate k 2 0 no_ref
        (ok tt)
        (k.bind 2 (k.remove_socket (acquire_lock k 2 true killed_one.last.files).1))
        (new_binding k 2 true no_ref (ok tt) killed_one.last.files)
unfolding killed_one
new_binding-Recovers_example = new_binding-Recovers k 2 no_ref (ok tt) killed_one.reach all_free
