-- ===== src/Wire/Setup/Accept.antt =====
-- `Reactive::accept` of src/wire.rs: `accept_now` in the retry loop, over the kernel of Setup.antt.
use strong_ipc.Prelude.{
  ℕ, zero, suc, ◌≡◌, sym, ◌∙◌, Bool, Bool-cases, inl, inr, Option, some, none, arith,
}
use strong_ipc.Io.{IoResult, ok, err}
use strong_ipc.Wire.Reactive.{retry, blocked, after_call, after_ready}
use strong_ipc.Wire.Setup.{socket_flags, Makes, Kernel, accept_now}

module _ (k : Kernel) (ready : k.World → IoResult Unit × k.World) where
  open k use {World, is_open, accept-Makes}

  -- `Reactive::accept` on the listening socket `fd`; `none` where the fuel runs out.
  unfoldable pub accept : ℕ → ℕ → World → Option (IoResult ℕ) × World
  unfolding accept_now
  accept fd fuel w = retry ready (accept_now k fd) fuel w

  -- Against the set `before` of descriptors
  abbrev pub Accepted : (ℕ → Bool) → Option (IoResult ℕ) × World → Type 0
  Accepted before (none, u) = (g : ℕ) → is_open u g ≡ before g
  Accepted before (some r, u) = Makes before r (is_open u)

  Makes-same :
      (before after : ℕ → Bool) (f : ℕ → Bool) (r : IoResult ℕ)
      → ((g : ℕ) → f g ≡ before g)
      → Makes f r after
      → Makes before r after
  Makes-same before after f (ok fd) e m = (sym (e fd) ∙ m.0, λ g. ground (arith, m.1 g, e g))
  Makes-same before after f (err x) e m = λ g. m g ∙ e g

  -- Where waiting for readiness opens and closes nothing, a call of `accept` that returns a
  -- connection has opened exactly that descriptor, however many rounds came before; and one that
  -- returns an error, or still waits, has left open exactly what was.
  pub accept-Accepted :
      ((w : World) (g : ℕ) → is_open (ready w).1 g ≡ is_open w g)
      → (before : ℕ → Bool) (fd fuel : ℕ) (w : World) → ((g : ℕ) → is_open w g ≡ before g)
      → Accepted before (accept fd fuel w)
  unfolding accept retry accept_now
  accept-Accepted keeps before fd zero w e = e
  accept-Accepted keeps before fd (suc fuel) w e =
      went (ready w) (λ g. keeps w g ∙ e g) (λ u f. accept-Accepted keeps before fd fuel u f)
    where
      again : World → Option (IoResult ℕ) × World
      again = retry ready (accept_now k fd) fuel

      called :
          (u : World) (r : IoResult ℕ × World)
          → Makes (is_open u) r.0 (is_open r.1)
          → ((g : ℕ) → is_open u g ≡ before g)
          → ((v : World) → ((g : ℕ) → is_open v g ≡ before g) → Accepted before (again v))
          → Accepted before (after_call ready (accept_now k fd) again r)
      called u (ok c, v) m f rest = Makes-same before (is_open v) (is_open u) (ok c) f m
      called u (err x, v) m f rest = elim (Bool-cases (blocked {A = ℕ} (err x))) [
        | inl b ↦ rw b (rest v (λ g. m g ∙ f g))
        | inr b ↦ rw b (λ g. m g ∙ f g)
      ]

      went :
          (r : IoResult Unit × World)
          → ((g : ℕ) → is_open r.1 g ≡ before g)
          → ((v : World) → ((g : ℕ) → is_open v g ≡ before g) → Accepted before (again v))
          → Accepted before (after_ready ready (accept_now k fd) again r)
      went (err x, u) f rest = f
      went (ok _, u) f rest = called u (accept_now k fd u) (accept-Makes socket_flags fd u) f rest
