-- ===== src/Examples/Frames/Tests.antt =====
-- Frames of three messages from number 200 on, at 100 ns, 110 ns and 120 ns.
use strong_ipc.Prelude.{ℕ, ◌≡◌, refl, some, none, Option, List, [], ◌∷◌, map, inl, inr, arith}
use strong_ipc.Examples.Frames.{Round, sequential, pipelined, start, tick}
use strong_ipc.Examples.Frames.Match.{Answer, reply, sent_ok, tick-Matched}

-- The second reply overtakes the first, and the third never comes.
abbrev answers : List (Option Answer)
answers = some (201, 110, 150) ∷ some (200, 100, 160) ∷ none ∷ []

abbrev times : List ℕ
times = 100 ∷ 110 ∷ 120 ∷ []

abbrev one_by_one : Round
one_by_one =
    sequential
      ((sent_ok 100, some (200, 130)) ∷ (sent_ok 140, none) ∷ (sent_ok 900, some (201, 910)) ∷ [])

tick-Matched_example :
    let t =
      tick 3 1_000 50 60 (pipelined (map sent_ok times) (map reply answers)) 2_000 (start 200) in
    (t.msg_ns ≡ 40 ∷ 60 ∷ []) × (t.lost ≡ 2)
tick-Matched_example =
    tick-Matched 1_000 50 60 2_000 times answers (start 200) ((omega arith, tt), (tt, tt))
      (inr (inl (refl, refl)), (inl (refl, refl), tt))

-- One receive of three times out.
counted_twice : (tick 3 1_000 50 60 one_by_one 2_000 (start 200)).lost ≡ 2
unfolding tick
counted_twice = refl
