-- ===== src/Node/Memory.antt =====
-- A buffer that recvmsg(2) overwrites from its start: the interface `Buffers` can be met.
use strong_ipc.Prelude.{ℕ, zero, suc, ◌≤◌, ◌≡◌, refl, ap, List, [], ◌∷◌, length, take, arith}
use strong_ipc.Node.{Buffers}

abbrev pub write : List ℕ → List ℕ → List ℕ
write p [] = []
write [] (b ∷ bs) = b ∷ bs
write (x ∷ p) (b ∷ bs) = x ∷ write p bs

pub length-write : (p b : List ℕ) → length (write p b) ≡ length b
length-write p [] = refl
length-write [] (b ∷ bs) = refl
length-write (x ∷ p) (b ∷ bs) = ap suc (length-write p bs)

pub take-write : (p b : List ℕ) → length p ≤ length b → take (length p) (write p b) ≡ p
take-write [] [] h = refl
take-write [] (b ∷ bs) h = refl
take-write (x ∷ p) [] h = absurd (omega arith)
take-write (x ∷ p) (b ∷ bs) h = ap (◌∷◌ x) (take-write p bs (omega arith))

-- A handler that leaves its slice as it is
abbrev pub memory : Buffers
memory = record {
  fill = write;
  leave = λ c b. b;
  length-fill = length-write;
  take-fill = take-write;
  length-leave = λ c b. refl;
}

pub zeros : ℕ → List ℕ
zeros zero = []
zeros (suc n) = 0 ∷ zeros n

pub length-zeros : (n : ℕ) → length (zeros n) ≡ n
unfolding zeros
length-zeros zero = refl
length-zeros (suc n) = ap suc (length-zeros n)
