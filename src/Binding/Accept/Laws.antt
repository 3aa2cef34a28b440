-- ===== src/Binding/Accept/Laws.antt =====
-- A connection to a bound path ends in the very capability that was bound there.
use strong_ipc.Prelude.{ℕ, ◌<◌, ◌≡◌, refl, ap, ◌∙◌, Option, some, List, [], ◌∷◌, map, arith}
use strong_ipc.Io.{IoResult, ok, err}
use strong_ipc.Message.{SocketId, Ref, payload, borrowed, as_fd}
use strong_ipc.Shards.{DashMap}
use strong_ipc.Wire.Recv.{recv_now, unpack}
use strong_ipc.Capability.Registry.{Reg, from_fd}
use strong_ipc.Capability.Registry.Steps.{Reach}
use strong_ipc.Capability.Registry.Identity.{from_fd-recognises}
use strong_ipc.Binding.Accept.{greeting, accept_loop, delivered, no_ref, connect}

-- The connections that are accepted before the first error
abbrev pub accepted : List (IoResult ℕ) → List ℕ
accepted [] = []
accepted (err e ∷ rest) = []
accepted (ok c ∷ rest) = c ∷ accepted rest

accept_loop-accepted :
    (r : Ref) (l : List (IoResult ℕ)) → accept_loop r l ≡ map (λ c. (c, greeting r)) (accepted l)
unfolding accept_loop
accept_loop-accepted r [] = refl
accept_loop-accepted r (err e ∷ l) = refl
accept_loop-accepted r (ok c ∷ l) = ground (arith, accept_loop-accepted r l)

module _ (d : DashMap ℕ) (ident : ℕ → SocketId) {s : Reg d} (reach : Reach d ident s) where
  -- Every connection accepted before the first error is sent one message, with no bytes and with
  -- one descriptor, which is the bound capability's own; a process that holds that capability live
  -- and keyed, and connects, gets that same `Ref` back out of the message's one descriptor, under
  -- whatever number it arrives; and one whose peer hangs up first gets an end-of-file error, its
  -- registry untouched.
  pub connect-greeting :
      (node_ref : Ref) (install : ℕ → ℕ) (sock x : ℕ) (i : SocketId) (conns : List (IoResult ℕ))
      (stat : ℕ → Option SocketId)
      → 0 < (s.inner node_ref.addr).strong
      → (s.inner node_ref.addr).id ≡ some i
      → s.table (s.inner node_ref.addr).fd ≡ some x
      → s.table (install node_ref.fd) ≡ some x
      → stat (install node_ref.fd) ≡ some (ident x)
      → (accept_loop node_ref conns ≡ map (λ c. (c, greeting node_ref)) (accepted conns))
        × (payload (greeting node_ref) ≡ [])
        × (borrowed (greeting node_ref) ≡ node_ref.fd ∷ [])
        × ((connect d stat (ok sock) (recv_now (ok (delivered install (greeting node_ref)))) s).0
            ≡ ok node_ref.addr)
        × (connect d stat (ok sock) (recv_now (ok (record { bytes = 0; ancillary = [] }))) s
            ≡ (err no_ref, s))
  unfolding connect greeting recv_now unpack as_fd
  connect-greeting node_ref install sock x i conns stat live id open_ arrived says = (
    accept_loop-accepted node_ref conns,
    refl,
    refl,
    ap ok (
        ap (λ o. (from_fd d o (install node_ref.fd) s).0) says
        ∙ from_fd-recognises d ident reach node_ref.addr (install node_ref.fd) x i live id open_
            arrived),
    refl,
  )
