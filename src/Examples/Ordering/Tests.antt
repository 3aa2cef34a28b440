-- ===== src/Examples/Ordering/Tests.antt =====
-- The verdict on one message, which is not all of them.
use strong_ipc.Prelude.{◌≡◌, refl, true, false, none, some, List, [], ◌∷◌, append-nil}
use strong_ipc.Examples.Ordering.{Arrival, SeqChecker, fresh, handle, messages, passes}
use strong_ipc.Examples.Ordering.Tail.{Nap, verdict}
use strong_ipc.Examples.Ordering.Sequenced.{arrivals}
use strong_ipc.Examples.Ordering.Tail.Laws.{verdict-InTime}

abbrev one : Arrival
one = record { data_bytes = 0 ∷ 0 ∷ 0 ∷ 0 ∷ 0 ∷ []; fds = 1 }

handle-one : (t : SeqChecker) × (handle one fresh ≡ some t) × (passes t ≡ false)
unfolding handle passes
handle-one = (_, refl, refl)

-- Nothing has come by the deadline; the wait goes on.
verdict-late : verdict [] (record { over = true; came = [] } ∷ []) ≡ some false
unfolding verdict passes
verdict-late = refl

verdict-waiting : verdict [] (record { over = false; came = one ∷ [] } ∷ []) ≡ none
unfolding verdict
verdict-waiting = refl

-- All has come while the program was sending.
abbrev at_once : List Arrival
at_once = arrivals messages 0

abbrev one_nap : List Nap
one_nap = record { over = true; came = [] } ∷ []

at_once-verdict : verdict at_once one_nap ≡ some true
at_once-verdict =
    verdict-InTime at_once [] (record { over = true; came = [] }) (append-nil at_once) tt

-- All but the last have come, and the last has a wrong number.
abbrev but_one : List Arrival
but_one = arrivals 499_999 0
