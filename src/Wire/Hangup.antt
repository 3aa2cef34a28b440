-- ===== src/Wire/Hangup.antt =====
-- `Reactive::hangup` of src/wire.rs, over any reactor: what each `ready` reports, until there is a
-- reason to return. A peer that lives makes it wait for ever, so the loop takes fuel.
pub mod Laws
use strong_ipc.Prelude.{ℕ, zero, suc, Bool, ◌||◌, if◌then◌else◌, Option, some, none}
use strong_ipc.Io.{IoResult, ok, err}

-- What the source reads of tokio's `Ready`
pub record Ready : Type 0 where
  pub read_closed : Bool
  pub error : Bool

abbrev pub is_gone : Ready → Bool
is_gone r = r.read_closed || r.error

-- `ready` is `self.io.ready(READABLE | ERROR)` once it resolves, `clear` is `guard.clear_ready()`.
module _ {W : Type 0} (ready : W → IoResult Ready × W) (clear : W → W) where
  abbrev pub after_event : (W → Option W) → IoResult Ready × W → Option W
  after_event again (err e, w) = some w
  after_event again (ok r, w) = if is_gone r then some w else again (clear w)

  -- `Some` is the state on return; `none` says that the fuel ran out.
  unfoldable pub hangup : ℕ → W → Option W
  hangup zero w = none
  hangup (suc f) w = after_event (hangup f) (ready w)
