-- ===== src/Wire/Setup/Pair.antt =====
-- A node's two sockets: `socketpair` and `enable_credentials` of src/wire.rs, and how `Node::new_raw` of
-- src/node.rs begins with them.
use strong_ipc.Prelude.{ℕ, ◌≡◌, arith}
use strong_ipc.Io.{IoResult, ok, err}
use strong_ipc.Wire.Setup.{socket_flags, MakesTwo, Kernel}

module _ (k : Kernel) where
  open k use {
    World, is_open, pair, passcred, register, close, pair-MakesTwo, passcred_keeps, register_keeps,
    is_open-close,
  }

  unfoldable pub socketpair : World → IoResult (ℕ × ℕ) × World
  socketpair w = pair socket_flags w

  -- The result of the system call is ignored.
  unfoldable pub enable_credentials : ℕ → World → World
  enable_credentials fd w = (passcred fd w).1

  -- `Reactive::new(rx)?`: on an error `rx` is dropped in it, and then `tx`.
  abbrev pub after_register : ℕ × ℕ → IoResult Unit × World → IoResult (ℕ × ℕ) × World
  after_register p (ok _, w) = (ok p, w)
  after_register (tx, rx) (err e, w) = (err e, close tx (close rx w))

  abbrev pub after_pair : IoResult (ℕ × ℕ) × World → IoResult (ℕ × ℕ) × World
  after_pair (ok (tx, rx), w) = after_register (tx, rx) (register rx (enable_credentials rx w))
  after_pair (err e, w) = (err e, w)

  -- The first three statements of `Node::new_raw`
  unfoldable pub node_sockets : World → IoResult (ℕ × ℕ) × World
  unfolding socketpair enable_credentials
  node_sockets w = after_pair (socketpair w)

  -- They open exactly the two descriptors of the pair; where one of them fails, they leave open exactly
  -- what was open before.
  pub node_sockets-MakesTwo :
      (w : World) → MakesTwo (is_open w) (node_sockets w).0 (is_open (node_sockets w).1)
  unfolding node_sockets socketpair enable_credentials
  node_sockets-MakesTwo w = made (pair socket_flags w) (pair-MakesTwo socket_flags w)
    where
      put_in :
          (tx rx : ℕ) (u : World) (r : IoResult Unit × World)
          → MakesTwo (is_open w) (ok (tx, rx)) (is_open u)
          → ((g : ℕ) → is_open r.1 g ≡ is_open u g)
          → MakesTwo
              (is_open w)
              (after_register (tx, rx) r).0
              (is_open (after_register (tx, rx) r).1)
      put_in tx rx u (ok _, v) m same = (m.0, m.1, m.2, λ g. ground (arith, same g, m.3 g))
      put_in tx rx u (err e, v) m same = λ g.
          ground
            (arith, is_open-close tx (close rx v) g, is_open-close rx v g, same g, m.0, m.1, m.3 g)

      made :
          (r : IoResult (ℕ × ℕ) × World)
          → MakesTwo (is_open w) r.0 (is_open r.1)
          → MakesTwo (is_open w) (after_pair r).0 (is_open (after_pair r).1)
      made (ok (tx, rx), u) m =
          put_in tx rx u (register rx (passcred rx u).1) m
            (λ g. ground (arith, register_keeps rx (passcred rx u).1 g, passcred_keeps rx u g))
      made (err e, u) m = m
