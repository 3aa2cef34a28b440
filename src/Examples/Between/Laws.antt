-- ===== src/Examples/Between/Laws.antt =====
-- The limit stays within the hard one, and `quiesce` ends.
use strong_ipc.Prelude.{
  ℕ, ◌≤◌, ◌≡◌, ◌⊎◌, inl, inr, refl, ap, ◌∙◌, Bool, true, false, Option, some, List, [], ◌∷◌, ◌++◌,
  arith, if◌then◌else◌,
}
use Prim.Native.Nat.{min}
use strong_ipc.Io.{IoResult, ok, err}
use strong_ipc.Wire.Limits.{Rlimit, Resource, usize_max, as_count, as_rlim}
use strong_ipc.Wire.Limits.Laws.{as_count-as_rlim}
use strong_ipc.Examples.Between.{
  nofile_limit, set_nofile_limit, Mail, arrive, empty_inbox, is_quiet, quiesce,
}

module _ (k : Resource) where
  open k use {Process, getrlimit, setrlimit, set_ok, set_err}

  -- The soft limit is the one asked for, but for the hard limit, which stays; or nothing has changed.
  pub set_nofile_limit_lem :
      (soft : ℕ) (p : Process)
      → soft ≤ usize_max
      → ((nofile_limit k (set_nofile_limit k soft p) ≡ min soft (as_count (getrlimit p).maximum))
          × ((getrlimit (set_nofile_limit k soft p)).maximum ≡ (getrlimit p).maximum))
        ⊎ (getrlimit (set_nofile_limit k soft p) ≡ getrlimit p)
  unfolding nofile_limit set_nofile_limit
  set_nofile_limit_lem soft p h = go (setrlimit l p).0 refl
    where
      n : ℕ
      n = min soft (as_count (getrlimit p).maximum)

      l : Rlimit
      l = record { current = as_rlim n; maximum = (getrlimit p).maximum }

      go :
          (r : IoResult Unit)
          → (setrlimit l p).0 ≡ r
          → ((as_count (getrlimit (setrlimit l p).1).current ≡ n)
              × ((getrlimit (setrlimit l p).1).maximum ≡ (getrlimit p).maximum))
            ⊎ (getrlimit (setrlimit l p).1 ≡ getrlimit p)
      go (ok tt) e = inl (
        ap (λ x. as_count x.current) (set_ok l p e) ∙ as_count-as_rlim n (omega arith),
        ap (λ x. x.maximum) (set_ok l p e),
      )
      go (err x) e = inr (set_err l p x e)

-- `quiesce` has returned, with an empty channel.
abbrev pub HasEnded : Option Mail → Type 0
HasEnded r = (m : Mail) × (r ≡ some m) × (m.inbox ≡ 0)

HasEnded-if :
    (b : Bool) (m : Mail) (r : Option Mail)
    → m.inbox ≡ 0
    → HasEnded r
    → HasEnded (if b then some m else r)
HasEnded-if true m r e h = (m, refl, e)
HasEnded-if false m r e h = h

second_quiet :
    (m : Mail) → is_quiet (empty_inbox (arrive 0 m)) (arrive 0 (empty_inbox (arrive 0 m))) ≡ true
second_quiet m = ground arith

HasEnded-second :
    (m : Mail) (rest : List ℕ) → HasEnded (quiesce (0 ∷ rest) (empty_inbox (arrive 0 m)))
unfolding quiesce
HasEnded-second m rest =
    (empty_inbox (arrive 0 (empty_inbox (arrive 0 m))), rw (second_quiet m) refl, refl)

-- However many replies have come before, two rounds in which none comes end `quiesce`, with an empty
-- channel.
pub quiesce-HasEnded :
    (rounds rest : List ℕ) (m : Mail) → HasEnded (quiesce (rounds ++ (0 ∷ 0 ∷ rest)) m)
unfolding quiesce
quiesce-HasEnded [] rest m =
    HasEnded-if (is_quiet m (arrive 0 m)) (empty_inbox (arrive 0 m))
      (quiesce (0 ∷ rest) (empty_inbox (arrive 0 m))) refl (HasEnded-second m rest)
quiesce-HasEnded (n ∷ rounds) rest m =
    HasEnded-if (is_quiet m (arrive n m)) (empty_inbox (arrive n m))
      (quiesce (rounds ++ (0 ∷ 0 ∷ rest)) (empty_inbox (arrive n m))) refl
      (quiesce-HasEnded rounds rest (empty_inbox (arrive n m)))
