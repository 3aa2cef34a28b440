-- ===== src/Examples/Ordering/Tail/Laws.antt =====
-- The program says PASS if what it has sent comes in time.
use strong_ipc.Prelude.{
  ◌+◌, ◌≤◌, ◌≡◌, inl, inr, refl, sym, ap, ◌∙◌, Bool, true, false, Bool-cases, Option, none, some,
  List, [], ◌∷◌, ◌++◌, append_assoc, append-nil, length, length-append, ltb, All, All-append_left,
  arith, ◌>>=◌,
}
use mathlib.Core.Path.{subst}
use strong_ipc.Examples.Ordering.{handle, messages, SeqChecker, fresh, Arrival, run, passes}
use strong_ipc.Examples.Ordering.Laws.{total_fds, HasHeader, run-Ends}
use strong_ipc.Examples.Ordering.Sequenced.{arrivals, arrivals-Sent, sequenced_passes}
use strong_ipc.Examples.Ordering.Tail.{Nap, at_end, wait_tail, verdict}

-- What comes in all rounds, and that none of them is past the deadline
abbrev pub all_came : List Nap → List Arrival
all_came [] = []
all_came (nap ∷ naps) = nap.came ++ all_came naps

abbrev pub InTime : List Nap → Type 0
InTime = All (λ nap. nap.over ≡ false)

pub run-append : (ms ns : List Arrival) (s : SeqChecker) → run (ms ++ ns) s ≡ (run ms s >>= run ns)
unfolding run
run-append [] ns s = refl
run-append (m ∷ ms) ns s = go (handle m s) (λ t. run-append ms ns t)
  where
    go :
        (o : Option SeqChecker)
        → ((t : SeqChecker) → run (ms ++ ns) t ≡ (run ms t >>= run ns))
        → elim o [ none ↦ none | some t ↦ run (ms ++ ns) t ]
          ≡ (elim o [ none ↦ none | some t ↦ run ms t ] >>= run ns)
    go none h = refl
    go (some t) h = h t

pub total_fds-append : (ms ns : List Arrival) → total_fds (ms ++ ns) ≡ total_fds ms + total_fds ns
total_fds-append [] ns = omega arith
total_fds-append (m ∷ ms) ns = omega (arith, total_fds-append ms ns)

-- Some messages that the checker takes, as many as there are to be, and passes
record IsWhole (full : List Arrival) : Type 0 where
  headers : All HasHeader full
  count : length full ≡ messages
  fds : total_fds full ≡ messages
  final : SeqChecker
  ran : run full fresh ≡ some final
  passed : passes final ≡ true

module _ (full : List Arrival) (whole : IsWhole full) where
  -- A first part of them is handled without a panic, and counted.
  front_run :
      (pre post : List Arrival)
      → pre ++ post ≡ full
      → (t : SeqChecker) × (run pre fresh ≡ some t) × (t.received ≡ length pre)
  front_run pre post e =
      let len : length pre + length post ≡ messages =
        sym (length-append pre post) ∙ ap length e ∙ whole.count in
      let fds : total_fds pre + total_fds post ≡ messages =
        sym (total_fds-append pre post) ∙ ap total_fds e ∙ whole.fds in
      let headers : All HasHeader pre =
        All-append_left HasHeader pre post (subst (All HasHeader) (sym e) whole.headers) in
      let (t, v) =
        run-Ends pre fresh headers (omega (arith, len)) (omega (arith, fds)) (omega (arith, len))
          (omega (arith, len)) in
      (t, v.ran, omega (arith, v.received))

  received_of :
      (pre post : List Arrival) (s : SeqChecker)
      → pre ++ post ≡ full
      → run pre fresh ≡ some s
      → s.received ≡ length pre
  received_of pre post s e r =
      let (t, q, n) = front_run pre post e in
      let same : t ≡ s = cc in ap (λ x. x.received) (sym same) ∙ n

  length-front :
      (pre post : List Arrival) → pre ++ post ≡ full → length pre + length post ≡ messages
  length-front pre post e = sym (length-append pre post) ∙ ap length e ∙ whole.count

  -- Where all have been counted, all have been handled.
  all_handled :
      (pre post : List Arrival) (s : SeqChecker)
      → pre ++ post ≡ full
      → run pre fresh ≡ some s
      → messages ≤ s.received
      → s ≡ whole.final
  all_handled pre [] s e r h =
      let ran : run pre fresh ≡ some whole.final =
        ap (λ l. run l fresh) (sym (append-nil pre) ∙ e) ∙ whole.ran in
      cc
  all_handled pre (m ∷ post) s e r h =
      absurd (omega (arith, length-front pre (m ∷ post) e, received_of pre (m ∷ post) s e r))

  next_run :
      (pre ms post : List Arrival) (s : SeqChecker)
      → pre ++ (ms ++ post) ≡ full
      → run pre fresh ≡ some s
      → (t : SeqChecker) × (run ms s ≡ some t) × (run (pre ++ ms) fresh ≡ some t)
  next_run pre ms post s e r =
      let (t, q, n) = front_run (pre ++ ms) post (append_assoc pre ms post ∙ e) in
      (t, ap (λ o. o >>= run ms) (sym r) ∙ sym (run-append pre ms fresh) ∙ q, q)

  -- One test of the loop: it ends with all of them handled, or goes on before the deadline.
  at_end-final :
      (pre post : List Arrival) (s : SeqChecker) (over : Bool) (rest : Option (Option SeqChecker))
      → pre ++ post ≡ full
      → run pre fresh ≡ some s
      → over ≡ false
      → rest ≡ some (some whole.final)
      → at_end over s rest ≡ some (some whole.final)
  at_end-final pre post s over rest e r o h = elim (Bool-cases (ltb s.received messages)) [
    | inl q ↦ rw (q, o) h
    | inr q ↦ rw (q, all_handled pre post s e r (ground arith)) refl
  ]

  wait_tail_end :
      (naps : List Nap) (last : Nap) (pre : List Arrival) (s : SeqChecker)
      → InTime naps
      → pre ++ all_came naps ≡ full
      → run pre fresh ≡ some s
      → wait_tail (naps ++ (last ∷ [])) s ≡ some (some whole.final)
  unfolding wait_tail
  wait_tail_end [] last pre s h e r =
      let n : messages ≤ s.received =
        omega (arith, length-front pre [] e, received_of pre [] s e r) in
      let full_count : ltb s.received messages ≡ false = ground (arith, n) in
      rw (full_count, all_handled pre [] s e r n) refl
  wait_tail_end (nap ∷ naps) last pre s h e r =
      let (t, q, p) = next_run pre nap.came (all_came naps) s e r in
      at_end-final pre (nap.came ++ all_came naps) s nap.over
        (run nap.came s >>= wait_tail (naps ++ (last ∷ []))) e r h.0
        (rw q (
          wait_tail_end naps last (pre ++ nap.came) t h.1
            (append_assoc pre nap.came (all_came naps) ∙ e) p))

IsWhole-arrivals : IsWhole (arrivals messages 0)
IsWhole-arrivals =
    let v = arrivals-Sent messages 0 (omega arith) in
    let (t, r, p) = sequenced_passes in
    record { headers = v.headers; count = v.count; fds = v.fds; final = t; ran = r; passed = p }

-- The program says PASS if all its messages come, in order and each with its capability, however they are
-- split between the time of the sends and the rounds of the wait, as long as no round before the last is
-- past the deadline. The last round's own arrivals and time do not matter.
pub verdict-InTime :
    (early : List Arrival) (naps : List Nap) (last : Nap)
    → early ++ all_came naps ≡ arrivals messages 0
    → InTime naps
    → verdict early (naps ++ (last ∷ [])) ≡ some true
unfolding verdict
verdict-InTime early naps last e h =
    let (s, r, n) = front_run (arrivals messages 0) IsWhole-arrivals early (all_came naps) e in
    let waited : wait_tail (naps ++ (last ∷ [])) s ≡ some (some IsWhole-arrivals.final) =
      wait_tail_end (arrivals messages 0) IsWhole-arrivals naps last early s h e r in
    rw (r, waited, IsWhole-arrivals.passed) refl
