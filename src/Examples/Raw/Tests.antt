-- ===== src/Examples/Raw/Tests.antt =====
-- A payload over both transports.
use strong_ipc.Prelude.{◌≡◌, refl, true, false, none, some, [], ◌∷◌}
use strong_ipc.Examples.Raw.{broken, came, raw_echo, accept_raw, stamp_seq}
use strong_ipc.Io.{ok}
use strong_ipc.Examples.Replies.{recv_reply}

recv_reply-stamped :
    recv_reply 99 (3 ∷ 2 ∷ 0 ∷ 0 ∷ 0 ∷ 0 ∷ 0 ∷ 0 ∷ 65 ∷ 65 ∷ 7 ∷ []) (some (some (ok 10))) none
    ≡ some (515, 99)
unfolding recv_reply
recv_reply-stamped = refl

stamp_seq-bytes : stamp_seq 10 515 ≡ some (3 ∷ 2 ∷ 0 ∷ 0 ∷ 0 ∷ 0 ∷ 0 ∷ 0 ∷ 65 ∷ 65 ∷ [])
unfolding stamp_seq
stamp_seq-bytes = refl

-- An empty message, a failed send or a failed recv ends the connection's task.
raw_echo-empty :
    raw_echo (came (1 ∷ []) true ∷ came [] true ∷ came (2 ∷ []) true ∷ []) ≡ (true, (1 ∷ []) ∷ [])
unfolding raw_echo
raw_echo-empty = refl

raw_echo-unsent : raw_echo (came (1 ∷ []) false ∷ came (2 ∷ []) true ∷ []) ≡ (true, [])
unfolding raw_echo
raw_echo-unsent = refl

accept_raw-stopped : accept_raw (some (broken ∷ []) ∷ none ∷ some [] ∷ []) ≡ (true, []) ∷ []
unfolding accept_raw
accept_raw-stopped = refl
