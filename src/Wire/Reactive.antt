-- ===== src/Wire/Reactive.antt =====
-- `Reactive` and `is_hung_up` of src/wire.rs: readiness with a retry loop around a non-blocking call.
-- The reactor and the call are arguments, over a state `W` of kernel and runtime; a loop that finds
-- nothing but `WouldBlock` runs on, so the loops take fuel.
pub mod Laws
use strong_ipc.Prelude.{ℕ, zero, suc, Bool, true, false, ◌||◌, if◌then◌else◌, Option, some, none}
use strong_ipc.Io.{
  ErrorKind, IoError, IoResult, ok, err, would_block, invalid_input, broken_pipe, addr_in_use,
  unexpected_eof, other,
}

abbrev pub is_would_block : ErrorKind → Bool
is_would_block would_block = true
is_would_block invalid_input = false
is_would_block broken_pipe = false
is_would_block addr_in_use = false
is_would_block unexpected_eof = false
is_would_block (other n) = false

-- `guard.try_io(…)`: `WouldBlock` clears the readiness and asks for another round.
abbrev pub blocked : {A : Type 0} → IoResult A → Bool
blocked (ok a) = false
blocked (err e) = is_would_block e.kind

module _ {W A : Type 0} (ready : W → IoResult Unit × W) (call : W → IoResult A × W) where
  abbrev pub after_call : (W → Option (IoResult A) × W) → IoResult A × W → Option (IoResult A) × W
  after_call again (a, w) = if blocked a then again w else (some a, w)

  abbrev pub after_ready :
      (W → Option (IoResult A) × W) → IoResult Unit × W → Option (IoResult A) × W
  after_ready again (err e, w) = (some (err e), w)
  after_ready again (ok _, w) = after_call again (call w)

  -- The loop of `Reactive::send`, `recv` and `accept`; `none` says that the fuel ran out.
  unfoldable pub retry : ℕ → W → Option (IoResult A) × W
  retry zero w = (none, w)
  retry (suc f) w = after_ready (retry f) (ready w)

-- `PollFlags`, of which the source reads three
pub record PollFlags : Type 0 where
  pub hup : Bool
  pub error : Bool
  pub nval : Bool

-- `is_hung_up`, given the result of its `poll`
unfoldable pub is_hung_up : IoResult PollFlags → Bool
is_hung_up (err _) = false
is_hung_up (ok f) = f.hup || (f.error || f.nval)
