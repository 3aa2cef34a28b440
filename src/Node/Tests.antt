-- ===== src/Node/Tests.antt =====
-- The theorems on `recv_loop` applied to short scripts, over buffers that are lists.
use strong_ipc.Prelude.{ℕ, ◌≡◌, refl, none, some, List, [], ◌∷◌}
use strong_ipc.Io.{IoResult, ok, err, from_kind, broken_pipe}
use strong_ipc.Node.{Datagram, recv_loop}
use strong_ipc.Node.Memory.{memory}
use strong_ipc.Node.Laws.{whole, spec, recv_loop-eq-spec}

abbrev of_bytes : List ℕ → Datagram
of_bytes l = record { content = l; rights = 5 ∷ []; creds = none }

abbrev script : List (IoResult Datagram)
script =
    ok (of_bytes (1 ∷ 2 ∷ []))
    ∷ ok (of_bytes (1 ∷ 2 ∷ 3 ∷ 4 ∷ []))
    ∷ ok (of_bytes (3 ∷ []))
    ∷ err (from_kind broken_pipe)
    ∷ ok (of_bytes (4 ∷ []))
    ∷ []

script_calls : recv_loop memory (0 ∷ 0 ∷ 0 ∷ []) script ≡ (
  whole (of_bytes (1 ∷ 2 ∷ [])) ∷ whole (of_bytes (3 ∷ [])) ∷ [],
  some (err (from_kind broken_pipe)),
)
unfolding recv_loop
script_calls = refl

recv_loop-eq-spec_example : recv_loop memory (0 ∷ 0 ∷ 0 ∷ []) script ≡ spec 3 script
recv_loop-eq-spec_example = recv_loop-eq-spec memory 3 (0 ∷ 0 ∷ 0 ∷ []) script refl
