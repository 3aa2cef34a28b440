-- ===== src/Wire/Setup/Laws.antt =====
-- No way out of these functions leaks a descriptor.
use strong_ipc.Prelude.{ℕ, ◌≡◌, refl, false, List, arith}
use strong_ipc.Io.{IoResult, ok, err}
use strong_ipc.Wire.Setup.{
  socket_flags, backlog, add_open, Makes, Kernel, or_close, then_listen, then_bind, then_connect,
  bind_address, connect_address, bind, connect, accept_now, reactive, and_then_reactive,
}

module _ (k : Kernel) where
  open k use {
    World, Address, is_open, address, socket, bind_to, listen, connect_to, register, close,
    socket-Makes, accept-Makes, bind_to_keeps, listen_keeps, connect_to_keeps, register_keeps,
    is_open-close,
  }

  -- `w` is the state before, and in `u` the new descriptor `fd` alone is open besides.
  abbrev Holds : World → ℕ → World → Type 0
  Holds w fd u = (is_open w fd ≡ false) × ((g : ℕ) → is_open u g ≡ add_open (is_open w) fd g)

  abbrev pub Result : World → IoResult ℕ × World → Type 0
  Result w (r, u) = Makes (is_open w) r (is_open u)

  or_close-Result :
      (w : World) (fd : ℕ) (r : IoResult Unit × World) → Holds w fd r.1 → Result w (or_close k fd r)
  or_close-Result w fd (ok _, u) h = h
  or_close-Result w fd (err e, u) h = λ g. ground (arith, is_open-close fd u g, h.0, h.1 g)

  then_listen-Result :
      (w : World) (fd : ℕ) (r : IoResult Unit × World)
      → Holds w fd r.1
      → Result w (then_listen k fd r)
  then_listen-Result w fd (ok _, u) h =
      or_close-Result w fd (listen fd backlog u)
        (h.0, λ g. ground (arith, listen_keeps fd backlog u g, h.1 g))
  then_listen-Result w fd (err e, u) h = λ g. ground (arith, is_open-close fd u g, h.0, h.1 g)

  then_bind-Result :
      (w : World) (a : Address) (r : IoResult ℕ × World) → Result w r → Result w (then_bind k a r)
  then_bind-Result w a (ok fd, u) h =
      then_listen-Result w fd (bind_to fd a u)
        (h.0, λ g. ground (arith, bind_to_keeps fd a u g, h.1 g))
  then_bind-Result w a (err e, u) h = h

  then_connect-Result :
      (w : World) (a : Address) (r : IoResult ℕ × World)
      → Result w r
      → Result w (then_connect k a r)
  then_connect-Result w a (ok fd, u) h =
      or_close-Result w fd (connect_to fd a u)
        (h.0, λ g. ground (arith, connect_to_keeps fd a u g, h.1 g))
  then_connect-Result w a (err e, u) h = h

  bind-Result : (path : List ℕ) (w : World) → Result w (bind k path w)
  unfolding bind
  bind-Result path w = go (address path)
    where
      go : (a : IoResult Address) → Result w (bind_address k a w)
      go (ok a) = then_bind-Result w a (socket socket_flags w) (socket-Makes socket_flags w)
      go (err e) = λ g. refl

  connect-Result : (path : List ℕ) (w : World) → Result w (connect k path w)
  unfolding connect
  connect-Result path w = go (address path)
    where
      go : (a : IoResult Address) → Result w (connect_address k a w)
      go (ok a) = then_connect-Result w a (socket socket_flags w) (socket-Makes socket_flags w)
      go (err e) = λ g. refl

  and_then_reactive-Result :
      (w : World) (r : IoResult ℕ × World) → Result w r → Result w (and_then_reactive k r)
  unfolding reactive
  and_then_reactive-Result w (ok fd, u) h =
      or_close-Result w fd (register fd u) (h.0, λ g. ground (arith, register_keeps fd u g, h.1 g))
  and_then_reactive-Result w (err e, u) h = h

  -- `bind`, `connect` and `accept_now`, each followed by `Reactive::new`, open exactly the one
  -- descriptor that they return, which was not open before; where any of their calls fails, exactly the
  -- descriptors are open that were open before.
  pub reactive-Result :
      (path : List ℕ) (fd : ℕ) (w : World)
      → Result w (and_then_reactive k (bind k path w))
        × Result w (and_then_reactive k (connect k path w))
        × Result w (and_then_reactive k (accept_now k fd w))
  unfolding accept_now
  reactive-Result path fd w = (
    and_then_reactive-Result w (bind k path w) (bind-Result path w),
    and_then_reactive-Result w (connect k path w) (connect-Result path w),
    and_then_reactive-Result w (accept_now k fd w) (accept-Makes socket_flags fd w),
  )
