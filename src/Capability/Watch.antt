-- ===== src/Capability/Watch.antt =====
-- `Ref::is_dead` and `Ref::death_notification` of src/capability.rs, given what poll(2) says of the socket
-- and whether the death watch could be built.
pub mod Laws
mod Tests
use strong_ipc.Prelude.{ℕ, Bool, Option, none, some, if◌then◌else◌}
use strong_ipc.Io.{IoResult, ok, err}
use strong_ipc.Wire.Reactive.{PollFlags, is_hung_up}
use strong_ipc.Wire.Hangup.{Ready, hangup}

-- `Ref::is_dead`
unfoldable pub is_dead : IoResult PollFlags → Bool
unfolding is_hung_up
is_dead polled = is_hung_up polled

module _ {W : Type 0} (ready : W → IoResult Ready × W) (clear : W → W) where
  -- `watch.hangup().await`, or `pending().await`
  abbrev pub await_watch : ℕ → IoResult Unit → W → Option W
  await_watch fuel (ok _) w = hangup ready clear fuel w
  await_watch fuel (err e) w = none

  -- `Ref::death_notification`: the state on return, or `none` if that has not come within the fuel
  unfoldable pub death_notification : ℕ → IoResult PollFlags → IoResult Unit → W → Option W
  unfolding is_dead hangup
  death_notification fuel polled watch w =
      if is_dead polled then some w else await_watch fuel watch w
