-- ===== src/Binding/Accept.antt =====
-- The two ends of a bound path, of src/capability.rs: what the accept loop of `RefFsBinding::new` sends to
-- each connection, and what `Ref::connect` makes of it. `install` says under which numbers the kernel
-- puts the descriptors that arrive.
pub mod Laws
use strong_ipc.Prelude.{ℕ, Option, none, some, List, [], ◌∷◌, map, length}
use strong_ipc.Prelude.Family.{put}
use strong_ipc.Io.{IoError, IoResult, ok, err, unexpected_eof, Piece, text}
use strong_ipc.Message.{SocketId, Message, Ref, from_data, add_ref, payload, borrowed}
use strong_ipc.Shards.{DashMap}
use strong_ipc.Wire.Recv.{RecvMsg, Received, scm_rights, recv_now}
use strong_ipc.Capability.Registry.{Reg, from_fd}

-- The message that hands the node's capability on
unfoldable pub greeting : Ref → Message
unfolding from_data add_ref
greeting node_ref = add_ref (from_data []) node_ref

-- One round of the accept loop: what `accept` and then `Reactive::new` gave, and what that connection is
-- sent. The loop ends at the first error; the result of the send is ignored.
pub accept_loop : Ref → List (IoResult ℕ) → List (ℕ × Message)
unfolding greeting
accept_loop node_ref [] = []
accept_loop node_ref (err e ∷ rest) = []
accept_loop node_ref (ok conn ∷ rest) = (conn, greeting node_ref) ∷ accept_loop node_ref rest

-- What recvmsg(2) hands over of a message
abbrev pub delivered : (ℕ → ℕ) → Message → RecvMsg
delivered install m = record {
  bytes = length (payload m);
  ancillary = scm_rights (map install (borrowed m)) ∷ [];
}

abbrev pub no_ref : IoError
no_ref = record { kind = unexpected_eof; shown = text "Failed to read Ref fd" ∷ [] }

module _ (d : DashMap ℕ) where
  abbrev pub close_all : List ℕ → Reg d → Reg d
  close_all [] s = s
  close_all (fd ∷ rest) s = close_all rest (record s { table = put s.table fd none })

  -- `.fds.into_iter().next()`: the first descriptor, the others are dropped.
  abbrev pub adopt : (ℕ → Option SocketId) → List ℕ → Reg d → IoResult ℕ × Reg d
  adopt stat [] s = (err no_ref, s)
  adopt stat (fd ∷ rest) s = let (a, t) = from_fd d (stat fd) fd (close_all rest s) in (ok a, t)

  abbrev pub after_recv : (ℕ → Option SocketId) → IoResult Received → Reg d → IoResult ℕ × Reg d
  after_recv stat (err e) s = (err e, s)
  after_recv stat (ok r) s = adopt stat r.fds s

  -- `Ref::connect`, given what `wire::connect` with `Reactive::new` say, and what its `recv` gave
  unfoldable pub connect :
      (ℕ → Option SocketId) → IoResult ℕ → IoResult Received → Reg d → IoResult ℕ × Reg d
  unfolding from_fd
  connect stat (err e) received s = (err e, s)
  connect stat (ok sock) received s = after_recv stat received s
