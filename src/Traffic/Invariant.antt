-- ===== src/Traffic/Invariant.antt =====
-- The invariant of threads, counter, channel and drain task; every step keeps it.
use mathlib.Core.Path.{subst, ap₂}
use strong_ipc.Prelude.{
  ℕ, ◌+◌, ◌≤◌, ◌<◌, ◌^◌, ◌≡◌, ◌≢◌, refl, sym, ap, ◌∙◌, true, some, [], ◌∷◌, ◌++◌, All-append,
  append_assoc, append-nil, arith,
}
use strong_ipc.Prelude.Family.{
  put, put_elim, sum_below, sum_below-le, sum_below-put, sum_below-zero,
}
use strong_ipc.Channel.{Mpsc}
use strong_ipc.Traffic.{
  Sent, Pc, idle, loaded, Thread, Shared, Act, load, Pump, System, act, pump, init, Reach, start,
  later,
}
use strong_ipc.Capability.Gate.{inline_ok}
use strong_ipc.Traffic.Order.{NoneOf, Good, Good-mono, Good-insert, Good-remove, Good-append_left}
use strong_ipc.Traffic.Line.{
  message_of, line, tail_of, keep, enqueue, overtake, Act-Change, Flow, still, arrive, lose, cut,
  Pump-Flow,
}
use strong_ipc.Traffic.Calls.{IsMine, Act-IsMine}
use strong_ipc.Traffic.Count.{claim_of, permit_of, Counted, Act-Counted, Pump-Counted}

module _ (k : Mpsc Sent) where
  -- A thread that may send inline has nothing waiting.
  abbrev pub IsClear : ℕ → Thread → Shared k → Type 0
  IsClear i t sh = (m : Sent) → t.pc ≡ loaded true m → NoneOf i (tail_of k sh)

  abbrev pub claims : ℕ → (ℕ → Thread) → ℕ
  claims n th = sum_below n (λ j. claim_of (th j).pc)

  abbrev pub permits : ℕ → (ℕ → Thread) → ℕ
  permits n th = sum_below n (λ j. permit_of (th j).pc)

  abbrev pub next_of : (ℕ → Thread) → ℕ → ℕ
  next_of th j = (th j).next

  pub record Inv (n : ℕ) (sh : Shared k) (th : ℕ → Thread) : Type 0 where
    pub stuck : ℕ
    pub counted : Counted k sh (claims n th) (permits n th) stuck
    pub good : Good (next_of th) (line k sh)
    pub mine : (i : ℕ) → IsMine i (th i)
    pub clear : (i : ℕ) → IsClear i (th i) sh

  -- The fast path opens only when nothing waits.
  inline-tail :
      (sh : Shared k) (m : Sent) {c p s : ℕ}
      → Counted k sh c p s
      → inline_ok k m.message sh.outbox ≡ true
      → tail_of k sh ≡ []
  unfolding inline_ok
  inline-tail sh m v e = ground arith

  -- Only the load of the counter opens the fast path.
  Act-IsClear :
      {i : ℕ} {sh sh' : Shared k} {t t' : Thread} {c p s : ℕ}
      → Counted k sh c p s
      → Act k i sh t sh' t'
      → IsClear i t' sh'
  Act-IsClear v (Act.begin m e f) x q = cc
  Act-IsClear {sh} v (load m e) x q = subst (NoneOf _) (sym (inline-tail sh m v (ground arith))) tt
  Act-IsClear v a x q = ground arith

  module _ {n : ℕ} (few : n < 2 ^ 63) {sh : Shared k} {th : ℕ → Thread} (inv : Inv n sh th) where
    claim_le : (p : Pc) → claim_of p ≤ 1
    claim_le p = ground arith

    module _ (i : ℕ) {sh' : Shared k} {t' : Thread} (lt : i < n)
        (a : Act k i sh (th i) sh' t') where
      counted' : (s : ℕ) × Counted k sh' (claims n (put th i t')) (permits n (put th i t')) s
      counted' =
          Act-Counted k inv.counted
            (omega (arith, sum_below-le n (λ j. claim_of (th j).pc) (λ j. claim_le _)))
            (omega (arith, sum_below-le n (λ j. claim_of (put th i t' j).pc) (λ j. claim_le _)))
            (sum_below-put (λ (x : Thread). claim_of x.pc) n i th t' lt)
            (sum_below-put (λ (x : Thread). permit_of x.pc) n i th t' lt) a

      grows : (th i).next ≤ t'.next → (j : ℕ) → (th j).next ≤ next_of (put th i t') j
      grows le j = ground arith

      from_mine : (m : Sent) → message_of (th i).pc ≡ some m → m.seq ≡ next_of th m.sender
      from_mine m h = let (e, f) = inv.mine i m h in f ∙ ap (next_of th) (sym e)

      to_mine :
          (m : Sent)
          → message_of (th i).pc ≡ some m
          → t'.next ≡ (th i).next + 1
          → next_of th m.sender < next_of (put th i t') m.sender
      to_mine m h x = ground (arith, inv.mine i m h)

      good' : Good (next_of (put th i t')) (line k sh')
      good' = elim (Act-Change k inv.counted.unbuilt a) [
        | keep w e m ↦
            subst (Good _) (sym (ap₂ ◌++◌ w e)) (Good-mono (next_of th) _ (grows m) _ inv.good)
        | enqueue m h w e x ↦
            subst (Good _) (append_assoc sh.wire (tail_of k sh) (m ∷ []) ∙ sym (ap₂ ◌++◌ w e)) (
              Good-insert (next_of th) _ (grows (omega arith)) (line k sh) [] m (from_mine m h)
                (to_mine m h x) tt (subst (Good _) (sym (append-nil (line k sh))) inv.good))
        | overtake m h w e x ↦
            subst (Good _) (sym (append_assoc sh.wire (m ∷ []) (tail_of k sh)) ∙ sym (ap₂ ◌++◌ w e))
              (Good-insert (next_of th) _ (grows (omega arith)) sh.wire (tail_of k sh) m
                (from_mine m (ground arith)) (to_mine m (ground arith) x)
                (subst (λ z. NoneOf z (tail_of k sh)) (sym (inv.mine i m (ground arith)).0)
                  (inv.clear i m h))
                inv.good)
      ]

      mine' : (j : ℕ) → IsMine j (put th i t' j)
      mine' = put_elim IsMine th i t' (Act-IsMine k a (inv.mine i)) (λ j ne. inv.mine j)

      others : (j : ℕ) → i ≢ j → NoneOf j (tail_of k sh) → NoneOf j (tail_of k sh')
      others j ne h = elim (Act-Change k inv.counted.unbuilt a) [
        | keep w e m ↦ subst (NoneOf j) (sym e) h
        | enqueue m g w e x ↦
            subst (NoneOf j) (sym e)
              (All-append _ (tail_of k sh) (m ∷ []) h (λ q. ne (sym (inv.mine i m g).0 ∙ q), tt))
        | overtake m g w e x ↦ subst (NoneOf j) (sym e) h
      ]

      clear' : (j : ℕ) → IsClear j (put th i t' j) sh'
      clear' =
          put_elim (λ j t. IsClear j t sh') th i t' (Act-IsClear inv.counted a)
            (λ j ne x q. others j ne (inv.clear j x q))

      Act-Inv : Inv n sh' (put th i t')
      Act-Inv = record {
        stuck = counted'.0;
        counted = counted'.1;
        good = good';
        mine = mine';
        clear = clear';
      }

    Pump-Good : {sh' : Shared k} → Flow k sh sh' → Good (next_of th) (line k sh')
    Pump-Good (still w e) = subst (Good (next_of th)) (sym (ap₂ ◌++◌ w e)) inv.good
    Pump-Good {sh'} (arrive m w e) =
        subst (Good (next_of th))
          (ap (◌++◌ sh.wire) e
            ∙ sym (append_assoc sh.wire (m ∷ []) (tail_of k sh'))
            ∙ ap (λ z. z ++ tail_of k sh') (sym w))
          inv.good
    Pump-Good {sh'} (lose m w e) =
        subst (Good (next_of th)) (ap (λ z. z ++ tail_of k sh') (sym w)) (
          Good-remove (next_of th) sh.wire (tail_of k sh') m
            (subst (λ z. Good (next_of th) (sh.wire ++ z)) e inv.good))
    Pump-Good (cut w e) =
        subst (Good (next_of th)) (sym (append-nil sh.wire) ∙ sym (ap₂ ◌++◌ w e))
          (Good-append_left (next_of th) sh.wire (tail_of k sh) inv.good)

    Pump-none :
        {sh' : Shared k} (j : ℕ)
        → Flow k sh sh'
        → NoneOf j (tail_of k sh)
        → NoneOf j (tail_of k sh')
    Pump-none j (still w e) h = subst (NoneOf j) (sym e) h
    Pump-none j (arrive m w e) h = (subst (NoneOf j) e h).1
    Pump-none j (lose m w e) h = (subst (NoneOf j) e h).1
    Pump-none j (cut w e) h = subst (NoneOf j) (sym e) tt

    Pump-Inv : {sh' : Shared k} → Pump k sh sh' → Inv n sh' th
    Pump-Inv a =
        let s =
          Pump-Counted k inv.counted
            (omega (arith, sum_below-le n (λ j. claim_of (th j).pc) (λ j. claim_le _))) a in
        record {
          stuck = s.0;
          counted = s.1;
          good = Pump-Good (Pump-Flow k a);
          mine = inv.mine;
          clear = λ j x q. Pump-none j (Pump-Flow k a) (inv.clear j x q);
        }

  init-Inv : (n : ℕ) → Inv n (init k).shared (init k).thread
  init-Inv n = record {
    stuck = 0;
    counted = ground (
      arith,
      sum_below-zero n (λ _. claim_of idle) (λ _. refl),
      sum_below-zero n (λ _. permit_of idle) (λ _. refl),
    );
    good = (tt, tt);
    mine = λ i m e. cc;
    clear = λ i m e. cc;
  }

  -- Every reachable state satisfies the invariant, for fewer than 2 ^ 63 threads.
  pub Reach-Inv : {n : ℕ} {s : System k} → n < 2 ^ 63 → Reach k n s → Inv n s.shared s.thread
  Reach-Inv {n} few start = init-Inv n
  Reach-Inv few (later r (act i lt a)) = Act-Inv few (Reach-Inv few r) i lt a
  Reach-Inv few (later r (pump a)) = Pump-Inv few (Reach-Inv few r) a
