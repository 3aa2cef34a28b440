-- ===== src/Error.antt =====
-- src/error.rs: what can go wrong on the way out. Every send error carries the message back.
pub mod Laws
use Prim.Native.String.{String}
use strong_ipc.Prelude.{ℕ, Bool, true, false, Option, some, none, List, [], ◌∷◌, ◌++◌, length}
use strong_ipc.Io.{ErrorKind, IoError, Piece, text, number, from_kind, invalid_input, broken_pipe}
use strong_ipc.Message.{Message, payload}
use strong_ipc.Wire.Sizes.{max_message_size}

pub data NodeError : Type 0 where
  io : IoError → NodeError

-- `NodeError::io_kind`
pub io_kind : NodeError → Option ErrorKind
io_kind (io e) = some e.kind

-- `impl From<io::Error> for NodeError`
pub from_io : IoError → NodeError
from_io e = io e

-- `impl From<NodeError> for io::Error`
pub into_io : NodeError → IoError
into_io (io e) = e

-- `impl Error for NodeError`: `source`
pub source : NodeError → Option IoError
source (io e) = some e

pub data SendError : Type 0 where
  too_large : Message → SendError
  closed : Message → SendError

pub data TrySendError : Type 0 where
  full : Message → TrySendError
  too_large : Message → TrySendError
  closed : Message → TrySendError

-- `SendError::into_message`
unfoldable pub into_message : SendError → Message
into_message (SendError.too_large m) = m
into_message (SendError.closed m) = m

-- `TrySendError::into_message`
unfoldable pub try_into_message : TrySendError → Message
try_into_message (TrySendError.full m) = m
try_into_message (TrySendError.too_large m) = m
try_into_message (TrySendError.closed m) = m

-- `TrySendError::is_full`
unfoldable pub is_full : TrySendError → Bool
is_full (TrySendError.full _) = true
is_full (TrySendError.too_large _) = false
is_full (TrySendError.closed _) = false

-- `impl From<SendError> for TrySendError`
unfoldable pub widen : SendError → TrySendError
widen (SendError.too_large m) = TrySendError.too_large m
widen (SendError.closed m) = TrySendError.closed m

-- `impl From<SendError> for io::Error`
unfoldable pub send_error_io : SendError → IoError
send_error_io (SendError.too_large _) = from_kind invalid_input
send_error_io (SendError.closed _) = from_kind broken_pipe

-- `impl Display for NodeError`
pub display_node_error : NodeError → List Piece
display_node_error (io e) = text "could not stand up a node: " ∷ e.shown

-- `impl Debug for SendError`
pub debug_send_error : SendError → List Piece
debug_send_error (SendError.too_large _) = text "TooLarge" ∷ []
debug_send_error (SendError.closed _) = text "Closed" ∷ []

-- `impl Debug for TrySendError`
pub debug_try_send_error : TrySendError → List Piece
debug_try_send_error (TrySendError.full _) = text "Full" ∷ []
debug_try_send_error (TrySendError.too_large _) = text "TooLarge" ∷ []
debug_try_send_error (TrySendError.closed _) = text "Closed" ∷ []

-- `impl Display for SendError`
pub display_send_error : SendError → List Piece
display_send_error (SendError.too_large m) =
    text "payload is "
    ∷ number (length (payload m))
    ∷ text " B, over the "
    ∷ number max_message_size
    ∷ text " B limit"
    ∷ []
display_send_error (SendError.closed _) = text "the peer is gone" ∷ []

-- `impl Display for TrySendError`
pub display_try_send_error : TrySendError → List Piece
display_try_send_error (TrySendError.full _) = text "the outbound queue is full" ∷ []
display_try_send_error (TrySendError.too_large m) =
    text "payload is "
    ∷ number (length (payload m))
    ∷ text " B, over the "
    ∷ number max_message_size
    ∷ text " B limit"
    ∷ []
display_try_send_error (TrySendError.closed _) = text "the peer is gone" ∷ []
