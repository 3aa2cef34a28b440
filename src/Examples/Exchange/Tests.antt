-- ===== src/Examples/Exchange/Tests.antt =====
-- A kernel in which every message is two bytes long and brings a descriptor, which lands at 7.
use strong_ipc.Prelude.{
  ℕ, ◌≡◌, refl, sym, ap, ◌∙◌, Bool, true, false, ◌||◌, ◌==◌, some, List, [], ◌∷◌, if◌then◌else◌,
  arith,
}
use strong_ipc.Prelude.Family.{put}
use strong_ipc.Examples.Exchange.{recv_once, Cmsg, rights, handed, among, Syscalls}

abbrev brought : (ℕ → Bool) → List Cmsg
brought w = if w 7 then [] else rights (7 ∷ []) ∷ []

free : (w : ℕ → Bool) (j : ℕ) → among j (handed (brought w)) ≡ true → w j ≡ false
free w j h = go (w 7) refl h
  where
    go :
        (b : Bool)
        → w 7 ≡ b
        → among j (handed (if b then [] else rights (7 ∷ []) ∷ [])) ≡ true
        → w j ≡ false
    go true e h = absurd (ground arith)
    go false e h = let same : 7 ≡ j = ground arith in sym (ap w same) ∙ e

abbrev kernel : Syscalls
kernel = record {
  World = ℕ → Bool;
  opened = λ w. w;
  sendmsg = λ sock bytes fd w. (true, w);
  recvmsg = λ sock w. (
    record { n = some 2; bytes = 65 ∷ 66 ∷ []; control = brought w },
    λ j. among j (handed (brought w)) || w j,
  );
  close = λ d w. put w d false;
  sendmsg_law = λ sock bytes fd w j. refl;
  recvmsg_law = λ sock w j. refl;
  recvmsg_free = λ sock w j h. free w j h;
  close_law = λ d w j. refl;
}

abbrev table : ℕ → Bool
table j = j == 3

recv_once-closed : ((recv_once kernel 3 0 table).1 ≡ 1) × ((recv_once kernel 3 0 table).2 7 ≡ false)
unfolding recv_once strong_ipc.Prelude.ℕ_discrete
recv_once-closed = (refl, refl)
