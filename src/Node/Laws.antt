-- ===== src/Node/Laws.antt =====
-- Which datagrams become handler calls, and with what.
use strong_ipc.Prelude.{
  ℕ, ◌≤◌, ◌<◌, ◌≡◌, ◌≢◌, false, refl, sym, ◌∙◌, some, none, List, [], ◌∷◌, ◌++◌, map, length, ltb,
  ◌==◌, if◌then◌else◌, All, arith,
}
use strong_ipc.Io.{IoResult, ok, err}
use strong_ipc.Message.{Message, payload}
use strong_ipc.Capability.Gate.{is_too_large}
use strong_ipc.Wire.Sizes.{max_message_size}
use strong_ipc.Node.{Datagram, Call, Buffers, received_of, Outcome, after, call_of, recv_loop}

-- A datagram delivered whole
abbrev pub whole : Datagram → Call
whole d = record { bytes = d.content; fds = d.rights; creds = d.creds }

-- What the loop should do, without any buffer: an empty datagram ends it, one over the limit is dropped,
-- any other is handed to the handler whole.
abbrev pub spec : ℕ → List (IoResult Datagram) → Outcome
spec limit [] = ([], none)
spec limit (err e ∷ rest) = ([], some (err e))
spec limit (ok d ∷ rest) =
    let dropped = spec limit rest in
    let handled = after (whole d) (spec limit rest) in
    if length d.content == 0
    then ([], some (ok tt))
    else if ltb limit (length d.content)
    then dropped
    else handled

length_pos : (l : List ℕ) → l ≢ [] → 0 < length l
length_pos [] h = absurd (h refl)
length_pos (x ∷ l) h = omega arith

module _ (k : Buffers) where
  open k use {fill, leave, length-fill, take-fill, length-leave}

  call_of-whole :
      (d : Datagram) (buf : List ℕ)
      → length d.content ≤ length buf
      → call_of k (received_of d) (fill d.content buf) ≡ whole d
  call_of-whole d buf h = ground (arith, take-fill d.content buf h)

  -- For every sequence of datagrams and errors, a loop whose buffer has `limit` bytes makes exactly the
  -- calls of the specification and ends as it does: a datagram that is longer than the buffer is
  -- dropped, an empty one ends the loop with `Ok` and an error with that error, and each other one is
  -- handled with its exact bytes, and the descriptors and credentials that `recv_now` gave with it.
  pub recv_loop-eq-spec :
      (limit : ℕ) (buf : List ℕ) (script : List (IoResult Datagram))
      → length buf ≡ limit
      → recv_loop k buf script ≡ spec limit script
  unfolding recv_loop
  recv_loop-eq-spec limit buf [] h = refl
  recv_loop-eq-spec limit buf (err e ∷ rest) h = refl
  recv_loop-eq-spec limit buf (ok d ∷ rest) h =
      let filled = fill d.content buf in
      let left = leave (call_of k (received_of d) filled) filled in
      ground (
        arith,
        length-fill d.content buf,
        length-leave (call_of k (received_of d) filled) filled,
        call_of-whole d buf,
        recv_loop-eq-spec limit filled rest,
        recv_loop-eq-spec limit left rest,
      )

  -- A message that `try_send` accepts and that is not empty
  abbrev pub IsDeliverable : Message → Type 0
  IsDeliverable m = (is_too_large m ≡ false) × (payload m ≢ [])

  -- Messages that `try_send` accepts, none of them empty, all reach the handler of a node with this
  -- crate's receive buffer, each with its exact payload, in order, and the node waits for more.
  pub recv_loop-accepted :
      (dress : Message → Datagram)
      → ((m : Message) → (dress m).content ≡ payload m)
      → (buf : List ℕ) → length buf ≡ max_message_size
      → (ms : List Message) → All IsDeliverable ms
      → recv_loop k buf (map (λ m. ok (dress m)) ms) ≡ (map (λ m. whole (dress m)) ms, none)
  recv_loop-accepted dress same buf h ms good =
      recv_loop-eq-spec max_message_size buf _ h ∙ delivered ms good
    where
      delivered :
          (ms : List Message)
          → All IsDeliverable ms
          → spec max_message_size (map (λ m. ok (dress m)) ms)
            ≡ (map (λ m. whole (dress m)) ms, none)
      delivered [] g = refl
      delivered (m ∷ ms) g = ground (arith, same m, length_pos (payload m), delivered ms g.1)

  spec-drop :
      (limit : ℕ) (big : Datagram) (xs ys : List (IoResult Datagram))
      → limit < length big.content
      → spec limit (xs ++ (ok big ∷ ys)) ≡ spec limit (xs ++ ys)
  spec-drop limit big [] ys h = ground arith
  spec-drop limit big (err e ∷ xs) ys h = refl
  spec-drop limit big (ok d ∷ xs) ys h = ground (arith, spec-drop limit big xs ys h)

  -- A datagram over the limit, which only a peer that does not use this crate can send, changes
  -- nothing but that it is dropped: all other calls are made as if it had not come.
  pub recv_loop-oversized :
      (buf : List ℕ) (big : Datagram) (xs ys : List (IoResult Datagram))
      → length buf < length big.content
      → recv_loop k buf (xs ++ (ok big ∷ ys)) ≡ recv_loop k buf (xs ++ ys)
  recv_loop-oversized buf big xs ys h =
      recv_loop-eq-spec (length buf) buf _ refl
      ∙ (spec-drop (length buf) big xs ys h ∙ sym (recv_loop-eq-spec (length buf) buf _ refl))

  -- Nothing that comes after an empty datagram is handled: the loop takes it for a hang-up.
  pub recv_loop-empty :
      (buf : List ℕ) (d : Datagram) (xs ys zs : List (IoResult Datagram))
      → d.content ≡ []
      → recv_loop k buf (xs ++ (ok d ∷ ys)) ≡ recv_loop k buf (xs ++ (ok d ∷ zs))
  recv_loop-empty buf d xs ys zs h =
      recv_loop-eq-spec (length buf) buf _ refl
      ∙ (spec-empty xs ∙ sym (recv_loop-eq-spec (length buf) buf _ refl))
    where
      spec-empty :
          (xs : List (IoResult Datagram))
          → spec (length buf) (xs ++ (ok d ∷ ys)) ≡ spec (length buf) (xs ++ (ok d ∷ zs))
      spec-empty [] = ground arith
      spec-empty (err e ∷ xs) = refl
      spec-empty (ok x ∷ xs) = ground (arith, spec-empty xs)
