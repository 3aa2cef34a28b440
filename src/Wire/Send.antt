-- ===== src/Wire/Send.antt =====
-- `send_now` of src/wire.rs, over sendmsg(2) and rustix's ancillary buffers.
pub mod Laws
use strong_ipc.Prelude.{
  ℕ, ◌≤◌, ◌≡◌, Bool, true, false, Option, some, none, List, [], ◌∷◌, length, leb, if◌then◌else◌,
}
use strong_ipc.Io.{IoError, IoResult, ok, err, invalid_input, text, number}
use strong_ipc.Message.{Message, payload, borrowed}
use strong_ipc.Wire.Sizes.{expected_fds}

-- `rustix::net::SendFlags`, of which the source uses three
pub record SendFlags : Type 0 where
  pub dontwait : Bool
  pub nosignal : Bool
  pub eor : Bool

-- sendmsg(2) over the state of a kernel, and rustix's buffer for control messages. `push_rights s l`
-- is a new buffer of `s` bytes after one `push` of `ScmRights(l)`, or `none` where `push` is false.
-- `rights_of` is the list of descriptors that a buffer carries.
pub record Sockets : Type 1 where
  pub World : Type 0
  pub Control : Type 0
  pub no_control : Control
  pub rights_of : Control → List ℕ
  pub space_rights : ℕ → ℕ
  pub space_rights_credentials : ℕ → ℕ
  pub push_rights : ℕ → List ℕ → Option Control
  pub sendmsg : ℕ → List ℕ → Control → SendFlags → World → IoResult Unit × World
  pub rights_of_none : rights_of no_control ≡ []
  pub space_le : (m n : ℕ) → m ≤ n → space_rights m ≤ space_rights_credentials n
  pub push_fits :
      (space : ℕ) (l : List ℕ)
      → space_rights (length l) ≤ space
      → (c : Control) × (push_rights space l ≡ some c) × (rights_of c ≡ l)

abbrev pub flags_for_send : SendFlags
flags_for_send = record { dontwait = true; nosignal = true; eor = true }

abbrev pub is_empty {ℓ} : {A : Type ℓ} → List A → Bool
is_empty [] = true
is_empty (_ ∷ _) = false

module _ (k : Sockets) where
  open k use {
    World, Control, no_control, space_rights, space_rights_credentials, push_rights, sendmsg,
  }

  -- `EXPECTED_ANCILLARY_BUFFER_SIZE`
  abbrev pub expected_ancillary_buffer_size : ℕ
  expected_ancillary_buffer_size = space_rights_credentials expected_fds

  -- The buffer on the stack, or one that is sized for the descriptors at hand
  pub control_space : List ℕ → ℕ
  control_space l =
      if leb (length l) expected_fds
      then expected_ancillary_buffer_size
      else space_rights (length l)

  unfoldable pub send_now : ℕ → Message → World → IoResult Unit × World
  unfolding control_space
  send_now fd m w =
      if is_empty m.fd_list
      then sendmsg fd (payload m) no_control flags_for_send w
      else elim (push_rights (control_space (borrowed m)) (borrowed m)) [
        | none ↦ (
          err (record {
            kind = invalid_input;
            shown =
                text "could not fit "
                ∷ number (length (borrowed m))
                ∷ text " descriptors in the control buffer"
                ∷ [];
          }),
          w,
        )
        | some c ↦ sendmsg fd (payload m) c flags_for_send w
      ]
