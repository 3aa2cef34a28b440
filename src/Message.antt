-- ===== src/Message.antt =====
-- src/message.rs: a byte payload and the descriptors that ride along with it.
-- A `Ref` is an `Arc<RefInner>`: the address of the shared inner, with the two fields of it that never
-- change after construction, its socket and its key in the registry (src/capability.rs). An `OwnedFd`
-- is the number of its descriptor.
pub mod Laws
use strong_ipc.Prelude.{ℕ, Option, List, [], ◌∷◌, ◌++◌, map}

-- `SocketId = (u64, u64)`: the device of the socket's inode, and the inode.
abbrev pub SocketId : Type 0
SocketId = ℕ × ℕ

pub record Ref : Type 0 where
  pub addr : ℕ
  pub fd : ℕ
  pub id : Option SocketId

pub data SendFd : Type 0 where
  owned : ℕ → SendFd
  of_ref : Ref → SendFd

-- `Ref::borrowed_fd`
unfoldable pub borrowed_fd : Ref → ℕ
borrowed_fd r = r.fd

-- `SendFd::as_fd`
unfoldable pub as_fd : SendFd → ℕ
unfolding borrowed_fd
as_fd (owned fd) = fd
as_fd (of_ref r) = borrowed_fd r

pub record Message : Type 0 where
  pub data_bytes : List ℕ
  pub fd_list : List SendFd

unfoldable pub from_data : List ℕ → Message
from_data bytes = record { data_bytes = bytes; fd_list = [] }

-- `SmallVec::push` appends.
unfoldable pub add_ref : Message → Ref → Message
add_ref m r = record m { fd_list = m.fd_list ++ (of_ref r ∷ []) }

unfoldable pub add_fd : Message → ℕ → Message
add_fd m fd = record m { fd_list = m.fd_list ++ (owned fd ∷ []) }

abbrev pub payload : Message → List ℕ
payload m = m.data_bytes

abbrev pub fds : Message → List SendFd
fds m = m.fd_list

-- The descriptors that `send_now` borrows, in the order in which they were attached.
abbrev pub borrowed : Message → List ℕ
borrowed m = map as_fd (fds m)
