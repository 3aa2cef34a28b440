-- ===== src/Examples/Exchange.antt =====
-- The raw exchange of examples/fdcost.rs, which speaks to the kernel without the library.
pub mod Laws
mod Tests
use strong_ipc.Prelude.{
  ℕ, zero, suc, ◌+◌, ◌≡◌, Bool, true, false, ◌||◌, Option, none, some, List, [], ◌∷◌, ◌++◌, ◌==◌,
  take,
}
use strong_ipc.Prelude.Family.{put}

-- An ancillary message: `SCM_RIGHTS` of `SOL_SOCKET` with its descriptors, or another one.
pub data Cmsg : Type 0 where
  rights : List ℕ → Cmsg
  other_kind : Cmsg

-- What `recvmsg` returns, `none` below zero, with the bytes and the ancillary messages that it left.
pub record Received : Type 0 where
  pub n : Option ℕ
  pub bytes : List ℕ
  pub control : List Cmsg

-- The descriptors that were handed over
abbrev pub handed : List Cmsg → List ℕ
handed [] = []
handed (rights ds ∷ l) = ds ++ handed l
handed (other_kind ∷ l) = handed l

abbrev pub among : ℕ → List ℕ → Bool
among j [] = false
among j (d ∷ ds) = (d == j) || among j ds

-- The system calls. `opened` is the process's descriptor table, into which `recvmsg` puts what a message
-- hands over, at places that were free.
pub record Syscalls : Type 1 where
  pub World : Type 0
  pub opened : World → ℕ → Bool
  pub sendmsg : (sock : ℕ) → List ℕ → Option ℕ → World → Bool × World
  pub recvmsg : (sock : ℕ) → World → Received × World
  pub close : ℕ → World → World
  pub sendmsg_law :
      (sock : ℕ) (bytes : List ℕ) (fd : Option ℕ) (w : World) (j : ℕ)
      → opened (sendmsg sock bytes fd w).1 j ≡ opened w j
  pub recvmsg_law :
      (sock : ℕ) (w : World) (j : ℕ)
      → opened (recvmsg sock w).1 j ≡ (among j (handed (recvmsg sock w).0.control) || opened w j)
  pub recvmsg_free :
      (sock : ℕ) (w : World) (j : ℕ)
      → among j (handed (recvmsg sock w).0.control) ≡ true
      → opened w j ≡ false
  pub close_law : (d : ℕ) (w : World) (j : ℕ) → opened (close d w) j ≡ put (opened w) d false j

module _ (k : Syscalls) where
  open k use {World, sendmsg, recvmsg, close}

  -- One `SCM_RIGHTS` message
  abbrev pub close_rights : List ℕ → ℕ × World → ℕ × World
  close_rights [] x = x
  close_rights (d ∷ ds) (recv_fds, w) = close_rights ds (suc recv_fds, close d w)

  abbrev pub close_all : List Cmsg → ℕ × World → ℕ × World
  close_all [] x = x
  close_all (rights ds ∷ l) x = close_all l (close_rights ds x)
  close_all (other_kind ∷ l) x = close_all l x

  abbrev pub on_length : List Cmsg → ℕ → World → Option ℕ → ℕ × World
  on_length control recv_fds w none = (recv_fds, w)
  on_length control recv_fds w (some zero) = (recv_fds, w)
  on_length control recv_fds w (some (suc n)) = close_all control (recv_fds, w)

  abbrev pub after_recvmsg : ℕ → Received × World → Received × ℕ × World
  after_recvmsg recv_fds (r, w) = let (c, u) = on_length r.control recv_fds w r.n in (r, c, u)

  -- `recv_once`, which returns `n`; the bytes are in its buffer.
  unfoldable pub recv_once : (sock recv_fds : ℕ) → World → Received × ℕ × World
  recv_once sock recv_fds w = after_recvmsg recv_fds (recvmsg sock w)

  -- The outer `none` is -1 for a failed send.
  abbrev pub after_sendmsg : (sock recv_fds : ℕ) → Bool × World → Option Received × ℕ × World
  after_sendmsg sock recv_fds (false, w) = (none, recv_fds, w)
  after_sendmsg sock recv_fds (true, w) =
      let (r, n, u) = recv_once sock recv_fds w in (some r, n, u)

  -- `xchg`
  unfoldable pub xchg :
      (sock : ℕ) → List ℕ → Option ℕ → (recv_fds : ℕ) → World → Option Received × ℕ × World
  unfolding recv_once
  xchg sock bytes send_fd recv_fds w = after_sendmsg sock recv_fds (sendmsg sock bytes send_fd w)

  abbrev pub after_echo : (ℕ → World → Bool × ℕ × World) → ℕ → Bool × World → Bool × ℕ × World
  after_echo again got (false, w) = (true, got, w)
  after_echo again got (true, w) = again got w

  abbrev pub echo_back :
      (ℕ → World → Bool × ℕ × World) → (sock : ℕ) → List ℕ → ℕ → World → Option ℕ → Bool × ℕ × World
  echo_back again sock bytes got w none = (true, got, w)
  echo_back again sock bytes got w (some zero) = (true, got, w)
  echo_back again sock bytes got w (some (suc n)) =
      after_echo again got (sendmsg sock (take (suc n) bytes) none w)

  -- The child's loop in `rung_raw_syscall`: whether it has ended within the fuel, and `got`.
  pub echo_child : ℕ → (sock got : ℕ) → World → Bool × ℕ × World
  unfolding recv_once
  echo_child zero sock got w = (false, got, w)
  echo_child (suc fuel) sock got w =
      let (r, got', u) = recv_once sock got w in
      echo_back (echo_child fuel sock) sock r.bytes got' u r.n
