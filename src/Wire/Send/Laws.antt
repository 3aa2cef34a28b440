-- ===== src/Wire/Send/Laws.antt =====
-- What reaches the kernel from `send_now`.
use strong_ipc.Prelude.{
  ℕ, ◌≤◌, ◌≡◌, refl, inl, inr, List, [], ◌∷◌, length, leb, leb→le, Bool-cases, arith,
}
use strong_ipc.Message.{Message, SendFd, payload, borrowed}
use strong_ipc.Wire.Sizes.{expected_fds}
use strong_ipc.Wire.Send.{Sockets, send_now, control_space, flags_for_send}

module _ (k : Sockets) where
  open k use {
    World, Control, no_control, rights_of, sendmsg, space_rights, space_le, push_fits,
    rights_of_none,
  }

  control_space_enough : (l : List ℕ) → space_rights (length l) ≤ control_space k l
  unfolding control_space
  control_space_enough l = elim (Bool-cases (leb (length l) expected_fds)) [
    | inl few ↦ rw few (space_le (length l) expected_fds (leb→le _ _ few))
    | inr many ↦ rw many (omega arith)
  ]

  -- `send_now` always makes exactly one `sendmsg`, with the whole payload, with a control message
  -- that carries exactly the descriptors of the message in their order, and with none at all if there
  -- are none: its own error branch is never taken.
  pub send_now_lem :
      (fd : ℕ) (m : Message) (w : World)
      → (c : Control) × (send_now k fd m w ≡ sendmsg fd (payload m) c flags_for_send w)
        × (rights_of c ≡ borrowed m)
        × (m.fd_list ≡ [] → c ≡ no_control)
  unfolding send_now
  send_now_lem fd m w = go m.fd_list refl
    where
      go :
          (l : List SendFd)
          → m.fd_list ≡ l
          → (c : Control) × (send_now k fd m w ≡ sendmsg fd (payload m) c flags_for_send w)
            × (rights_of c ≡ borrowed m)
            × (m.fd_list ≡ [] → c ≡ no_control)
      go [] e = (no_control, ground arith, ground (arith, rights_of_none), λ _. refl)
      go (f ∷ l) e =
          let (c, p, q) =
            push_fits (control_space k (borrowed m)) (borrowed m)
              (control_space_enough (borrowed m)) in
          (c, ground (arith, p), q, λ h. absurd (ground arith))
