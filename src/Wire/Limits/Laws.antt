-- ===== src/Wire/Limits/Laws.antt =====
-- What the limit calls report and leave behind.
use strong_ipc.Prelude.{
  ℕ, ◌≡◌, refl, sym, ap, ◌∙◌, ◌≤◌, true, inl, inr, Option, some, none, Bool-cases, arith,
}
use strong_ipc.Io.{IoError, IoResult, ok, err}
use strong_ipc.Wire.Limits.{
  Rlimit, Resource, usize_max, as_count, as_rlim, same_limit, then_ok, fd_limit, set_fd_limit,
  maximize_fd_limit,
}

-- Every `usize` survives the way to an rlimit and back, `usize::MAX` as "no limit" included.
pub as_count-as_rlim : (n : ℕ) → n ≤ usize_max → as_count (as_rlim n) ≡ n
unfolding as_count as_rlim
as_count-as_rlim n h = ground arith

same_limit-eq : (a b : Option ℕ) → same_limit a b ≡ true → a ≡ b
same_limit-eq a b h = ground arith

same_limit_refl : (a : Option ℕ) → same_limit a a ≡ true
same_limit_refl none = refl
same_limit_refl (some n) = ground arith

module _ (k : Resource) where
  open k use {Process, getrlimit, setrlimit, set_ok, set_err}

  -- The two ways in which a `setrlimit(…)?` ends.
  set_cases :
      (Q : IoResult ℕ × Process → Type 0) (l : Rlimit) (p : Process) (n : ℕ)
      → ((q : Process) → getrlimit q ≡ l → Q (ok n, q))
      → ((e : IoError) (q : Process) → getrlimit q ≡ getrlimit p → Q (err e, q))
      → Q (then_ok (setrlimit l p) n)
  set_cases Q l p n done failed = go (setrlimit l p) refl
    where
      go : (r : IoResult Unit × Process) → setrlimit l p ≡ r → Q (then_ok r n)
      go (ok _, q) e = done q (ap getrlimit (ap (λ r. r.1) (sym e)) ∙ set_ok l p (ap (λ r. r.0) e))
      go (err x, q) e =
          failed x q (ap getrlimit (ap (λ r. r.1) (sym e)) ∙ set_err l p x (ap (λ r. r.0) e))

  -- A call that failed left both limits alone.
  abbrev pub Unchanged : Process → Process → Type 0
  Unchanged p q = getrlimit q ≡ getrlimit p

  abbrev pub SetsTo : ℕ → Process → IoResult ℕ × Process → Type 0
  SetsTo limit p (ok n, q) =
      (n ≡ limit) × (fd_limit k q ≡ ok limit) × ((getrlimit q).maximum ≡ (getrlimit p).maximum)
  SetsTo limit p (err e, q) = Unchanged p q

  abbrev pub Maximizes : Process → IoResult ℕ × Process → Type 0
  Maximizes p (ok n, q) =
      (n ≡ as_count (getrlimit p).maximum)
      × ((getrlimit q).current ≡ (getrlimit p).maximum)
      × ((getrlimit q).maximum ≡ (getrlimit p).maximum)
      × (maximize_fd_limit k q ≡ (ok n, q))
  Maximizes p (err e, q) = Unchanged p q

  -- A successful `set_fd_limit` returns the limit that was asked for, `fd_limit` reports it
  -- afterwards, and the hard limit is what it was; a failing one changes neither limit.
  pub set_fd_limit-SetsTo :
      (limit : ℕ) (p : Process) → limit ≤ usize_max → SetsTo limit p (set_fd_limit k limit p)
  unfolding set_fd_limit fd_limit
  set_fd_limit-SetsTo limit p h =
      set_cases (SetsTo limit p) _ p (as_count (as_rlim limit))
        (λ q e. (
          as_count-as_rlim limit h,
          ap ok (ap (λ r. as_count r.current) e ∙ as_count-as_rlim limit h),
          ap (λ r. r.maximum) e,
        ))
        (λ x q e. e)

  settled :
      {m : Option ℕ} (q : Process)
      → getrlimit q ≡ record { current = m; maximum = m }
      → maximize_fd_limit k q ≡ (ok (as_count m), q)
  unfolding maximize_fd_limit
  settled {m} q e = rw (e, same_limit_refl m)

  -- A successful `maximize_fd_limit` leaves the soft limit at the hard one, which is unchanged and
  -- reported, and a second call then reports the same and changes nothing; a failing call changes
  -- neither limit.
  pub maximize_fd_limit-Maximizes : (p : Process) → Maximizes p (maximize_fd_limit k p)
  unfolding maximize_fd_limit
  maximize_fd_limit-Maximizes p =
      elim (Bool-cases (same_limit (getrlimit p).current (getrlimit p).maximum)) [
        | inl same ↦ rw same (refl, same_limit-eq _ _ same, refl, rw same)
        | inr apart ↦ rw apart (
            set_cases (Maximizes p) _ p (as_count (getrlimit p).maximum)
              (λ q e. (refl, ap (λ r. r.current) e, ap (λ r. r.maximum) e, settled q e))
              (λ x q e. e))
      ]
