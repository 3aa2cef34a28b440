-- ===== src/Capability/Lazy/Laws.antt =====
-- One value serves all callers, and every other is dropped.
use strong_ipc.Prelude.{
  ℕ, ◌<◌, ◌≤◌, ◌≡◌, ◌≢◌, ◌⊎◌, inl, inr, refl, true, false, none, some, arith, ℕ_discrete,
}
use strong_ipc.Prelude.Family.{put, put_elim}
use strong_ipc.Capability.Lazy.{
  Pc, move, entering, missed, holding, set_tried, got, failed, Lazy, init, Step, hits, misses,
  builds, cannot_build, sets, loses, reads, Reach, start, later,
}

-- What a caller at `p` knows.
abbrev pub Knows : Lazy → Pc → Type 0
Knows s entering = Unit {0}
Knows s missed = Unit {0}
Knows s failed = Unit {0}
Knows s (holding b) = (b < s.built) × (s.dropped b ≡ false) × (s.cell ≢ some b)
Knows s set_tried = s.cell ≢ none
Knows s (got b) = s.cell ≡ some b

-- Where built value `b` is.
abbrev pub Placed : Lazy → ℕ → Type 0
Placed s b = (s.cell ≡ some b) ⊎ (s.dropped b ≡ true) ⊎ ((i : ℕ) × (s.pc i ≡ holding b))

pub record Inv (s : Lazy) : Type 0 where
  pub knows : (i : ℕ) → Knows s (s.pc i)
  pub kept : (b : ℕ) → s.cell ≡ some b → (b < s.built) × (s.dropped b ≡ false)
  pub fresh : (b : ℕ) → s.built ≤ b → s.dropped b ≡ false
  pub distinct : (i j b : ℕ) → s.pc i ≡ holding b → s.pc j ≡ holding b → i ≡ j
  pub placed : (b : ℕ) → b < s.built → Placed s b

init-Inv : Inv init
init-Inv = record {
  knows = λ i. tt;
  kept = λ b e. absurd (ground arith);
  fresh = λ b lt. refl;
  distinct = λ i j b e. absurd (ground arith);
  placed = λ b lt. absurd (omega arith);
}

-- Whoever else holds `b` holds it still.
put-still :
    (f : ℕ → Pc) (i j b : ℕ) (p : Pc) → f i ≢ holding b → f j ≡ holding b → put f i p j ≡ holding b
put-still f i j b p h e = ground (arith, h)

-- A caller that holds nothing moves to where it holds nothing.
move-Inv :
    {s : Lazy} (i : ℕ) (p : Pc)
    → ((b : ℕ) → s.pc i ≢ holding b)
    → ((b : ℕ) → p ≢ holding b)
    → Knows s p
    → Inv s
    → Inv (move s i p)
move-Inv {s} i p idle free k v = record {
  knows = knows';
  kept = v.kept;
  fresh = v.fresh;
  distinct = λ x y b e g. ground (arith, v.distinct x y b, free b);
  placed = λ b lt. elim (v.placed b lt) [
    | inl e ↦ inl e
    | inr (inl e) ↦ inr (inl e)
    | inr (inr (j, e)) ↦ inr (inr (j, put-still s.pc i j b p (idle b) e))
  ];
}
  where
    knows' : (j : ℕ) → Knows s (put s.pc i p j)
    knows' = put_elim (λ j. Knows s) s.pc i p k (λ j ne. v.knows j)

Step-Inv : {s t : Lazy} → Step s t → Inv s → Inv t
Step-Inv {s} (hits i b e c) v = move-Inv i (got b) (λ x q. ground arith) (λ x q. ground arith) c v
Step-Inv {s} (misses i e c) v = move-Inv i missed (λ x q. ground arith) (λ x q. ground arith) tt v
Step-Inv {s} (builds i e) v = record {
  knows = λ j. ground (arith, v.knows j, v.kept s.built, v.fresh s.built);
  kept = λ x q. ground (arith, v.kept x);
  fresh = λ x lt. v.fresh x (omega arith);
  distinct = λ x y z p q. ground (arith, v.distinct x y z, v.knows x, v.knows y);
  placed = λ x lt. elim (ℕ_discrete x s.built) [
    | yes new ↦ inr (inr (i, ground arith))
    | no old ↦ elim (v.placed x (omega arith)) [
      | inl q ↦ inl q
      | inr (inl q) ↦ inr (inl q)
      | inr (inr (j, q)) ↦
          inr (inr (j, put-still s.pc i j x (holding s.built) (λ h. ground arith) q))
    ]
  ];
}
Step-Inv {s} (cannot_build i e) v =
    move-Inv i failed (λ x q. ground arith) (λ x q. ground arith) tt v
Step-Inv {s} (sets i b e c) v = record {
  knows = λ j. ground (arith, v.knows j, v.knows i, v.distinct i j b);
  kept = λ x q. ground (arith, v.knows i);
  fresh = v.fresh;
  distinct = λ x y z p q. ground (arith, v.distinct x y z);
  placed = λ x lt. elim (v.placed x lt) [
    | inl q ↦ absurd (ground arith)
    | inr (inl q) ↦ inr (inl q)
    | inr (inr (j, q)) ↦ elim (ℕ_discrete x b) [
      | yes same ↦ inl (ground arith)
      | no other ↦ inr (inr (j, put-still s.pc i j x set_tried (λ h. ground arith) q))
    ]
  ];
}
Step-Inv {s} (loses i b c e f) v = record {
  knows = λ j. ground (arith, v.knows j, v.knows i, v.distinct i j b);
  kept = λ x q. ground (arith, v.knows i, v.kept x);
  fresh = λ x lt. ground (arith, v.fresh x lt, v.knows i);
  distinct = λ x y z p q. ground (arith, v.distinct x y z);
  placed = λ x lt. elim (v.placed x lt) [
    | inl q ↦ inl q
    | inr (inl q) ↦ inr (inl (ground arith))
    | inr (inr (j, q)) ↦ elim (ℕ_discrete x b) [
      | yes same ↦ inr (inl (ground arith))
      | no other ↦ inr (inr (j, put-still s.pc i j x set_tried (λ h. ground arith) q))
    ]
  ];
}
Step-Inv {s} (reads i b e c) v = move-Inv i (got b) (λ x q. ground arith) (λ x q. ground arith) c v

Reach-Inv : {s : Lazy} → Reach s → Inv s
Reach-Inv start = init-Inv
Reach-Inv (later r st) = Step-Inv st (Reach-Inv r)

-- In every reachable state all callers that have returned a value returned the same one, which has not
-- been dropped; the second `get` of a caller that has tried to set finds a value, so its `expect` does
-- not panic; and each value that was built is the one in the cell, or dropped, or still in the hand of
-- the caller that built it.
pub shared_by_all :
    {s : Lazy}
    → Reach s
    → ((i j a b : ℕ) → s.pc i ≡ got a → s.pc j ≡ got b → (a ≡ b) × (s.dropped a ≡ false))
      × ((i : ℕ) → s.pc i ≡ set_tried → s.cell ≢ none)
      × ((b : ℕ) → b < s.built → Placed s b)
shared_by_all {s} r = (
  λ i j a b e f. ground (arith, v.knows i, v.knows j, v.kept a),
  λ i e. ground (arith, v.knows i),
  v.placed,
)
  where
    v : Inv s
    v = Reach-Inv r
