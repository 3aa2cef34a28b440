-- ===== src/Outbox/Close/Tests.antt =====
-- Three messages are queued, and the socket fails at the third.
use strong_ipc.Prelude.{ℕ, zero, suc, false, refl, Option, some, [], ◌∷◌, List, ◌++◌, arith}
use strong_ipc.Io.{IoResult, ok, err, broken_pipe, from_kind}
use strong_ipc.Channel.{lanes}
use strong_ipc.Outbox.{Outbox}
use strong_ipc.Outbox.Close.Laws.{Delivers, drain-Delivers}

abbrev send : ℕ → List ℕ → Option (IoResult Unit) × List ℕ
send zero w = (some (err (from_kind broken_pipe)), w)
send (suc m) w = (some (ok tt), w ++ (suc m ∷ []))

abbrev three : Outbox (lanes ℕ)
three = record {
  sender = record { capacity = 8; queued = 4 ∷ 5 ∷ 0 ∷ []; permits = 0; is_closed = false };
  pending = 3;
}

drain-Delivers_example : Delivers (lanes ℕ) send 5 (4 ∷ 5 ∷ 0 ∷ []) three []
drain-Delivers_example =
    drain-Delivers (lanes ℕ) send (4 ∷ 5 ∷ 0 ∷ []) 5 three [] (omega arith) refl (omega arith)
      (omega arith)
