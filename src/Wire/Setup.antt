-- ===== src/Wire/Setup.antt =====
-- How src/wire.rs makes sockets: `socketpair`, `bind`, `connect`, `accept_now`, `Reactive::new`.
-- An `OwnedFd` is closed where an early return drops it.
pub mod Laws
pub mod Accept
pub mod Pair
use strong_ipc.Prelude.{ℕ, ◌≡◌, ◌≢◌, Bool, true, false, List, ◌==◌, if◌then◌else◌}
use strong_ipc.Io.{IoError, IoResult, ok, err}

-- `SocketFlags`, of which the source uses two
pub record SocketFlags : Type 0 where
  pub nonblock : Bool
  pub cloexec : Bool

abbrev pub socket_flags : SocketFlags
socket_flags = record { nonblock = true; cloexec = true }

-- The length of the queue that `listen` asks for
abbrev pub backlog : ℕ
backlog = 128

abbrev pub add_open : (ℕ → Bool) → ℕ → ℕ → Bool
add_open f fd g = if fd == g then true else f g

abbrev pub remove_open : (ℕ → Bool) → ℕ → ℕ → Bool
remove_open f fd g = if fd == g then false else f g

-- What a call that may make a descriptor does to the set of open ones
abbrev pub Makes : (ℕ → Bool) → IoResult ℕ → (ℕ → Bool) → Type 0
Makes before (ok fd) after = (before fd ≡ false) × ((g : ℕ) → after g ≡ add_open before fd g)
Makes before (err e) after = (g : ℕ) → after g ≡ before g

-- The same of a call that makes two
abbrev pub MakesTwo : (ℕ → Bool) → IoResult (ℕ × ℕ) → (ℕ → Bool) → Type 0
MakesTwo before (ok (a, b)) after =
    (before a ≡ false)
    × (before b ≡ false)
    × (a ≢ b)
    × ((g : ℕ) → after g ≡ add_open (add_open before a) b g)
MakesTwo before (err e) after = (g : ℕ) → after g ≡ before g

-- The system calls, over the state of kernel and reactor, and what they do to this process's descriptors.
-- `address` is `SocketAddrUnix::new`, which refuses a path that is too long.
pub record Kernel : Type 1 where
  pub World : Type 0
  pub Address : Type 0
  pub is_open : World → ℕ → Bool
  pub address : List ℕ → IoResult Address
  pub socket : SocketFlags → World → IoResult ℕ × World
  pub pair : SocketFlags → World → IoResult (ℕ × ℕ) × World
  pub passcred : ℕ → World → IoResult Unit × World
  pub bind_to : ℕ → Address → World → IoResult Unit × World
  pub listen : ℕ → ℕ → World → IoResult Unit × World
  pub connect_to : ℕ → Address → World → IoResult Unit × World
  pub accept_with : SocketFlags → ℕ → World → IoResult ℕ × World
  pub register : ℕ → World → IoResult Unit × World
  pub close : ℕ → World → World
  pub socket-Makes :
      (f : SocketFlags) (w : World) → Makes (is_open w) (socket f w).0 (is_open (socket f w).1)
  pub pair-MakesTwo :
      (f : SocketFlags) (w : World) → MakesTwo (is_open w) (pair f w).0 (is_open (pair f w).1)
  pub passcred_keeps : (fd : ℕ) (w : World) (g : ℕ) → is_open (passcred fd w).1 g ≡ is_open w g
  pub accept-Makes :
      (f : SocketFlags) (fd : ℕ) (w : World)
      → Makes (is_open w) (accept_with f fd w).0 (is_open (accept_with f fd w).1)
  pub bind_to_keeps :
      (fd : ℕ) (a : Address) (w : World) (g : ℕ) → is_open (bind_to fd a w).1 g ≡ is_open w g
  pub listen_keeps : (fd n : ℕ) (w : World) (g : ℕ) → is_open (listen fd n w).1 g ≡ is_open w g
  pub connect_to_keeps :
      (fd : ℕ) (a : Address) (w : World) (g : ℕ) → is_open (connect_to fd a w).1 g ≡ is_open w g
  pub register_keeps : (fd : ℕ) (w : World) (g : ℕ) → is_open (register fd w).1 g ≡ is_open w g
  pub is_open-close :
      (fd : ℕ) (w : World) (g : ℕ) → is_open (close fd w) g ≡ remove_open (is_open w) fd g

module _ (k : Kernel) where
  open k use {
    World, Address, address, socket, bind_to, listen, connect_to, accept_with, register, close,
  }

  -- `call(&fd)?`, then `Ok(fd)`
  abbrev pub or_close : ℕ → IoResult Unit × World → IoResult ℕ × World
  or_close fd (ok _, w) = (ok fd, w)
  or_close fd (err e, w) = (err e, close fd w)

  abbrev pub then_listen : ℕ → IoResult Unit × World → IoResult ℕ × World
  then_listen fd (ok _, w) = or_close fd (listen fd backlog w)
  then_listen fd (err e, w) = (err e, close fd w)

  abbrev pub then_bind : Address → IoResult ℕ × World → IoResult ℕ × World
  then_bind a (ok fd, w) = then_listen fd (bind_to fd a w)
  then_bind a (err e, w) = (err e, w)

  abbrev pub then_connect : Address → IoResult ℕ × World → IoResult ℕ × World
  then_connect a (ok fd, w) = or_close fd (connect_to fd a w)
  then_connect a (err e, w) = (err e, w)

  abbrev pub bind_address : IoResult Address → World → IoResult ℕ × World
  bind_address (ok a) w = then_bind a (socket socket_flags w)
  bind_address (err e) w = (err e, w)

  abbrev pub connect_address : IoResult Address → World → IoResult ℕ × World
  connect_address (ok a) w = then_connect a (socket socket_flags w)
  connect_address (err e) w = (err e, w)

  -- `wire::bind`
  unfoldable pub bind : List ℕ → World → IoResult ℕ × World
  bind path w = bind_address (address path) w

  -- `wire::connect`
  unfoldable pub connect : List ℕ → World → IoResult ℕ × World
  connect path w = connect_address (address path) w

  -- `wire::accept_now`
  unfoldable pub accept_now : ℕ → World → IoResult ℕ × World
  accept_now fd w = accept_with socket_flags fd w

  -- `Reactive::new`, which owns the descriptor
  unfoldable pub reactive : ℕ → World → IoResult ℕ × World
  reactive fd w = or_close fd (register fd w)

  -- `.and_then(Reactive::new)` after one of them
  abbrev pub and_then_reactive : IoResult ℕ × World → IoResult ℕ × World
  and_then_reactive (ok fd, w) = reactive fd w
  and_then_reactive (err e, w) = (err e, w)
