-- ===== src/Io.antt =====
-- What the source uses of `std::io`: an error with its kind, and `io::Result`.
use Prim.Native.String.{String}
use strong_ipc.Prelude.{ℕ, List, []}

-- `std::io::ErrorKind`; `other` stands for the kinds that no code here names.
pub data ErrorKind : Type 0 where
  would_block invalid_input broken_pipe addr_in_use unexpected_eof : ErrorKind
  other : ℕ → ErrorKind

-- What a `write!` or a `format!` hands to the formatter: literal text and numbers.
pub data Piece : Type 0 where
  text : String → Piece
  number : ℕ → Piece

-- `std::io::Error`: its kind, and what it displays. A bare kind displays a text of `std`'s own, which
-- is left empty.
pub record IoError : Type 0 where
  pub kind : ErrorKind
  pub shown : List Piece

-- `std::io::Result`
pub data IoResult (A : Type 0) : Type 0 where
  ok : A → IoResult A
  err : IoError → IoResult A

abbrev pub from_kind : ErrorKind → IoError
from_kind k = record { kind = k; shown = [] }
