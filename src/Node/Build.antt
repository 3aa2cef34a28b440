-- ===== src/Node/Build.antt =====
-- `Node::new_raw` of src/node.rs, with what it builds in this process: a `Ref` in the registry, an entry of
-- the local map, and a life that has begun. A socketpair's two descriptors `tx` and `rx` name sockets
-- `x` and `y`; credentials are asked for as best can be, and change nothing here.
pub mod Laws
mod Tests
use strong_ipc.Prelude.{ℕ, Option, none, some}
use strong_ipc.Prelude.Family.{put}
use strong_ipc.Io.{IoError, IoResult, ok, err}
use strong_ipc.Error.{NodeError, from_io}
use strong_ipc.Message.{SocketId, Ref}
use strong_ipc.Shards.{DashMap}
use strong_ipc.Capability.Registry.{Reg, from_fd}
use strong_ipc.Local.{Cell, LocalEntry, Locals, file}
use strong_ipc.Node.Life.{Life, born}

pub record Pair : Type 0 where
  pub tx : ℕ
  pub rx : ℕ
  pub x : ℕ
  pub y : ℕ

-- The `Node`, with what its task holds
pub record Node : Type 0 where
  pub handler : ℕ
  pub life : Life
  pub entry : Option LocalEntry

module _ (d : DashMap ℕ) where
  pub record Process : Type 0 where
    pub reg : Reg d
    pub locals : Locals d

  pub data Built : Type 0 where
    built : Node → Ref → Built
    failed : NodeError → Built

  abbrev pub opened : Pair → Reg d → Reg d
  opened p r = record r { table = put (put r.table p.tx (some p.x)) p.rx (some p.y) }

  abbrev pub close_both : Pair → Reg d → Reg d
  close_both p r = record r { table = put (put r.table p.rx none) p.tx none }

  -- The `Ref` at an address, with the fields of its inner that never change
  abbrev pub ref_at : ℕ × Reg d → Ref
  ref_at (a, r) = record { addr = a; fd = (r.inner a).fd; id = (r.inner a).id }

  abbrev pub file_local : ℕ → Option SocketId → Locals d → Option LocalEntry × Locals d
  file_local handler none l = (none, l)
  file_local handler (some id) l = let (e, m) = file d id handler l in (some e, m)

  abbrev pub finish : ℕ → ℕ × Reg d → Locals d → Built × Process
  finish handler (a, r) l =
      let (e, m) = file_local handler (r.inner a).id l in
      (
        built (record { handler = handler; life = born; entry = e }) (ref_at (a, r)),
        record { reg = r; locals = m },
      )

  abbrev pub after_reactive : Pair → Option SocketId → ℕ → IoResult Unit → Process → Built × Process
  after_reactive p stat handler (err e) s =
      (failed (from_io e), record s { reg = close_both p s.reg })
  after_reactive p stat handler (ok _) s = finish handler (from_fd d stat p.tx s.reg) s.locals

  -- `Node::new_raw`, given what its socketpair, its `Reactive::new` and the `fstat` in `from_fd` say
  unfoldable pub new_raw :
      IoResult Pair → IoResult Unit → Option SocketId → ℕ → Process → Built × Process
  unfolding from_fd file
  new_raw (err e) registered stat handler s = (failed (from_io e), s)
  new_raw (ok p) registered stat handler s =
      after_reactive p stat handler registered (record s { reg = opened p s.reg })

  -- `Node::new`: the handler's `Arc` is new, at address `handler`.
  unfoldable pub new :
      IoResult Pair → IoResult Unit → Option SocketId → ℕ → ℕ → Process → Built × Process
  unfolding new_raw
  new pair registered stat handler tag s =
      let fresh : Cell = record { tag = tag; strong = 1 } in
      new_raw pair registered stat handler
        (record s { locals = record s.locals { cell = put s.locals.cell handler fresh } })

-- `Node::handler`, and the `Deref` that goes through it
unfoldable pub handler_of : Node → ℕ
handler_of n = n.handler

unfoldable pub deref : Node → ℕ
unfolding handler_of
deref n = handler_of n
