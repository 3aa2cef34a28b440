-- ===== src/Death.antt =====
-- src/death.rs: the latch behind `Node::is_dead`, with any number of waiters and the tombstone.
-- tokio's `Notify` is an interface; its laws are what tokio documents of `enable` and
-- `notify_waiters`. The flag's accesses are taken as sequentially consistent.
pub mod Laws
mod Tests
use strong_ipc.Prelude.{ℕ, ◌≡◌, ◌≢◌, refl, Bool, true, false}
use strong_ipc.Prelude.Family.{put}

-- One `Notified` future: not registered, registered, woken.
pub data Waiter : Type 0 where
  fresh enabled woken : Waiter

-- `notify_waiters` wakes those that are registered, and no other.
abbrev pub wake : Waiter → Waiter
wake fresh = fresh
wake enabled = woken
wake woken = woken

abbrev pub enrol : Waiter → Waiter
enrol fresh = enabled
enrol enabled = enabled
enrol woken = woken

pub record Notify : Type 1 where
  pub State : Type 0
  pub new : State
  pub waiter : State → ℕ → Waiter
  pub enable : ℕ → State → State
  pub notify_waiters : State → State
  pub waiter-new : (i : ℕ) → waiter new i ≡ fresh
  pub waiter-enable :
      (i : ℕ) (s : State) (j : ℕ) → waiter (enable i s) j ≡ put (waiter s) i (enrol (waiter s i)) j
  pub waiter-notify_waiters : (s : State) (j : ℕ) → waiter (notify_waiters s) j ≡ wake (waiter s j)

-- The laws can be met: the waiters as a function.
abbrev pub waiters : Notify
waiters = record {
  State = ℕ → Waiter;
  new = λ _. fresh;
  waiter = λ s i. s i;
  enable = λ i s. put s i (enrol (s i));
  notify_waiters = λ s i. wake (s i);
  waiter-new = λ i. refl;
  waiter-enable = λ i s j. refl;
  waiter-notify_waiters = λ s j. refl;
}

-- Where a call of `Death::wait` stands.
pub data Pc : Type 0 where
  outside : Pc  -- before `enable`
  registered : Pc  -- before the check of the flag
  parked : Pc  -- at `notified.await`
  returned : Pc

-- Where `Tombstone::drop` stands.
pub data Tombstone : Type 0 where
  armed stored declared : Tombstone

module _ (n : Notify) where
  pub record Death : Type 0 where
    pub dead : Bool
    pub notify : n.State
    pub tombstone : Tombstone
    pub pc : ℕ → Pc

  -- `Death::default`, and its tombstone
  abbrev pub init : Death
  init = record { dead = false; notify = n.new; tombstone = armed; pc = λ _. outside }

  -- `Death::is_dead`
  unfoldable pub is_dead : Death → Bool
  is_dead s = s.dead

  abbrev pub move : Death → ℕ → Pc → Death
  move s i p = record s { pc = put s.pc i p }

  -- One access of a waiter or of the task that drops the tombstone.
  pub data Step (s : Death) : Death → Type 0 where
    -- `notified.as_mut().enable()`
    enables :
        (i : ℕ)
        → s.pc i ≡ outside
        → Step s (record s { notify = n.enable i s.notify; pc = put s.pc i registered })
    -- `if self.is_dead() { return; }`
    sees_dead : (i : ℕ) → s.pc i ≡ registered → is_dead s ≡ true → Step s (move s i returned)
    sees_alive : (i : ℕ) → s.pc i ≡ registered → is_dead s ≡ false → Step s (move s i parked)
    -- `notified.await` completes.
    wakes : (i : ℕ) → s.pc i ≡ parked → n.waiter s.notify i ≡ woken → Step s (move s i returned)
    -- `Death::declare`, in two accesses
    stores : s.tombstone ≡ armed → Step s (record s { dead = true; tombstone = stored })
    notifies :
        s.tombstone ≡ stored
        → Step s (record s { notify = n.notify_waiters s.notify; tombstone = declared })

  pub data Reach : Death → Type 0 where
    start : Reach init
    later : {s t : Death} → Reach s → Step s t → Reach t
