-- ===== src/Examples/Exchange/Laws.antt =====
-- What the raw exchange does to the process's descriptors.
use strong_ipc.Prelude.{
  ℕ, zero, suc, ◌+◌, ◌≡◌, ◌∙◌, refl, sym, ap, Bool, true, false, ◌||◌, ◌&&◌, ◌==◌, not, ◌⊎◌, inl,
  inr, Bool-cases, Option, none, some, List, [], ◌∷◌, ◌++◌, length, length-append, take, arith,
}
use strong_ipc.Examples.Exchange.{
  Cmsg, rights, other_kind, Received, handed, among, Syscalls, close_rights, close_all, on_length,
  recv_once, after_sendmsg, xchg, after_echo, echo_back, echo_child,
}

among-append : (j : ℕ) (xs ys : List ℕ) → among j (xs ++ ys) ≡ (among j xs || among j ys)
among-append j [] ys = refl
among-append j (x ∷ xs) ys = elim (Bool-cases (x == j)) [
  | inl e ↦ rw e refl
  | inr e ↦ rw (e, among-append j xs ys) refl
]

either : (a b c : Bool) → (not b && (not a && c)) ≡ (not (a || b) && c)
either true true c = refl
either true false c = refl
either false true c = refl
either false false c = refl

-- What was not there goes, the rest stays.
back : (a c : Bool) → (a ≡ true → c ≡ false) → (not a && (a || c)) ≡ c
back true c h = sym (h refl)
back false c h = refl

module _ (k : Syscalls) where
  open k use {
    World, opened, sendmsg, recvmsg, close, sendmsg_law, recvmsg_law, recvmsg_free, close_law,
  }

  -- From `x` to `y` the descriptors `ds` have been closed and counted, and no others.
  record Closes (ds : List ℕ) (x y : ℕ × World) : Type 0 where
    counted : y.0 ≡ x.0 + length ds
    table : (j : ℕ) → opened y.1 j ≡ (not (among j ds) && opened x.1 j)

  Closes-append :
      {ds es : List ℕ} (x y z : ℕ × World) → Closes ds x y → Closes es y z → Closes (ds ++ es) x z
  Closes-append {ds} {es} x y z g h = record {
    counted = omega (arith, g.counted, h.counted, length-append ds es);
    table = λ j.
        h.table j
        ∙ (ap (λ b. not (among j es) && b) (g.table j)
            ∙ (either (among j ds) (among j es) (opened x.1 j)
                ∙ ap (λ b. not b && opened x.1 j) (sym (among-append j ds es))));
  }

  close-Closes :
      (d recv_fds : ℕ) (w : World) → Closes (d ∷ []) (recv_fds, w) (suc recv_fds, close d w)
  close-Closes d recv_fds w = record {
    counted = omega arith;
    table = λ j. close_law d w j ∙ ground arith;
  }

  close_rights-Closes : (ds : List ℕ) (x : ℕ × World) → Closes ds x (close_rights k ds x)
  close_rights-Closes [] x = record { counted = omega arith; table = λ j. refl }
  close_rights-Closes (d ∷ ds) (recv_fds, w) =
      let y : ℕ × World = (suc recv_fds, close d w) in
      Closes-append (recv_fds, w) y (close_rights k ds y) (close-Closes d recv_fds w)
        (close_rights-Closes ds y)

  close_all-Closes : (l : List Cmsg) (x : ℕ × World) → Closes (handed l) x (close_all k l x)
  close_all-Closes [] x = record { counted = omega arith; table = λ j. refl }
  close_all-Closes (rights ds ∷ l) x =
      let y = close_rights k ds x in
      Closes-append x y (close_all k l y) (close_rights-Closes ds x) (close_all-Closes l y)
  close_all-Closes (other_kind ∷ l) x = close_all-Closes l x

  -- What `recv_once` does: with a message of some bytes it counts the descriptors that came and leaves the
  -- table as it was; otherwise it counts none and keeps what came.
  abbrev pub Receives : (sock recv_fds : ℕ) → World → Received × ℕ × World → Option ℕ → Type 0
  Receives sock recv_fds w (r, n, u) (some (suc _)) =
      (n ≡ recv_fds + length (handed r.control)) × ((j : ℕ) → opened u j ≡ opened w j)
  Receives sock recv_fds w (r, n, u) (some zero) =
      (n ≡ recv_fds) × ((j : ℕ) → opened u j ≡ (among j (handed r.control) || opened w j))
  Receives sock recv_fds w (r, n, u) none =
      (n ≡ recv_fds) × ((j : ℕ) → opened u j ≡ (among j (handed r.control) || opened w j))

  recv_once-Receives :
      (sock recv_fds : ℕ) (w : World)
      → let x = recv_once k sock recv_fds w in Receives sock recv_fds w x x.0.n
  unfolding recv_once
  recv_once-Receives sock recv_fds w = go (recvmsg sock w).0.n
    where
      r : Received
      r = (recvmsg sock w).0

      go :
          (n : Option ℕ)
          → let (c, u) = on_length k r.control recv_fds (recvmsg sock w).1 n in
            Receives sock recv_fds w (r, c, u) n
      go none = (refl, recvmsg_law sock w)
      go (some zero) = (refl, recvmsg_law sock w)
      go (some (suc n)) =
          let h = close_all-Closes r.control (recv_fds, (recvmsg sock w).1) in
          (
            h.counted,
            λ j.
                h.table j
                ∙ (ap (λ b. not (among j (handed r.control)) && b) (recvmsg_law sock w j)
                    ∙ back (among j (handed r.control)) (opened w j) (recvmsg_free sock w j)),
          )

  abbrev Same : World → World → Type 0
  Same w u = (j : ℕ) → opened u j ≡ opened w j

  abbrev pub is_empty : Option ℕ → Bool
  is_empty (some (suc n)) = false
  is_empty (some zero) = true
  is_empty none = true

  -- While the child's loop runs, the table is as at the start; at its end it is so too, or the last
  -- message, without bytes, has left its descriptors.
  abbrev pub Steady : (sock : ℕ) → World → Bool × ℕ × World → Type 0
  Steady sock w (false, got, u) = Same w u
  Steady sock w (true, got, u) =
      Same w u
      ⊎ ((v : World) × Same w v
          × (is_empty (recvmsg sock v).0.n ≡ true)
          × ((j : ℕ) → opened u j ≡ (among j (handed (recvmsg sock v).0.control) || opened v j)))

  Steady-from :
      (sock : ℕ) (w v : World) (x : Bool × ℕ × World) → Same w v → Steady sock v x → Steady sock w x
  Steady-from sock w v (false, got, u) s h = λ j. h j ∙ s j
  Steady-from sock w v (true, got, u) s (inl h) = inl (λ j. h j ∙ s j)
  Steady-from sock w v (true, got, u) s (inr (v', a, b, c)) = inr (v', λ j. a j ∙ s j, b, c)

  -- However many messages the server's child has echoed, its descriptor table is as it was at the start:
  -- all descriptors that came with them have been closed. Only a message without bytes, which ends the
  -- loop, leaves its descriptors open.
  pub echo_child-Steady :
      (fuel sock got : ℕ) (w : World) → Steady sock w (echo_child k fuel sock got w)
  unfolding echo_child recv_once
  echo_child-Steady zero sock got w = λ j. refl
  echo_child-Steady (suc fuel) sock got w =
      on_n (echo_child-Steady fuel sock) (recvmsg sock w).0.n refl (recv_once-Receives sock got w)
    where
      r : Received
      r = (recvmsg sock w).0

      echoed :
          (c : ℕ) (y : Bool × World)
          → ((c : ℕ) (v : World) → Steady sock v (echo_child k fuel sock c v))
          → Same w y.1
          → Steady sock w (after_echo k (echo_child k fuel sock) c y)
      echoed c (false, v) rest same = inl same
      echoed c (true, v) rest same =
          Steady-from sock w v (echo_child k fuel sock c v) same (rest c v)

      on_n :
          ((c : ℕ) (v : World) → Steady sock v (echo_child k fuel sock c v))
          → (n : Option ℕ) → r.n ≡ n
          → (let (c, u) = on_length k r.control got (recvmsg sock w).1 n in
              Receives sock got w (r, c, u) n)
          → let (c, u) = on_length k r.control got (recvmsg sock w).1 n in
            Steady sock w (echo_back k (echo_child k fuel sock) sock r.bytes c u n)
      on_n rest none e h = inr (w, λ j. refl, ap is_empty e, h.1)
      on_n rest (some zero) e h = inr (w, λ j. refl, ap is_empty e, h.1)
      on_n rest (some (suc n)) e h =
          let x = close_all k r.control (got, (recvmsg sock w).1) in
          echoed x.0 (sendmsg sock (take (suc n) r.bytes) none x.1) rest
            (λ j. sendmsg_law sock (take (suc n) r.bytes) none x.1 j ∙ h.1 j)

  Receives-Same :
      (sock recv_fds : ℕ) (w : World) (x : Received × ℕ × World) (n : Option ℕ)
      → Receives sock recv_fds w x n
      → is_empty n ≡ false
      → Same w x.2
  Receives-Same sock recv_fds w x none h e = absurd (ground arith)
  Receives-Same sock recv_fds w x (some zero) h e = absurd (ground arith)
  Receives-Same sock recv_fds w x (some (suc n)) h e = h.1

  abbrev pub Exchanged : World → Option Received × ℕ × World → Type 0
  Exchanged w (none, n, u) = Same w u
  Exchanged w (some r, n, u) = is_empty r.n ≡ false → Same w u

  -- A round trip of the client leaves its descriptor table as it was, unless the answer has no bytes.
  pub xchg-Exchanged :
      (sock : ℕ) (bytes : List ℕ) (send_fd : Option ℕ) (recv_fds : ℕ) (w : World)
      → Exchanged w (xchg k sock bytes send_fd recv_fds w)
  unfolding xchg recv_once
  xchg-Exchanged sock bytes send_fd recv_fds w =
      go (sendmsg sock bytes send_fd w) (sendmsg_law sock bytes send_fd w)
    where
      go : (y : Bool × World) → Same w y.1 → Exchanged w (after_sendmsg k sock recv_fds y)
      go (false, u) same = same
      go (true, u) same =
          let x = recv_once k sock recv_fds u in
          λ e j.
            Receives-Same sock recv_fds u x x.0.n (recv_once-Receives sock recv_fds u) e j ∙ same j
