-- ===== src/Examples/Echo.antt =====
-- The echo server of examples/bench.rs, whose shape paced.rs and timeline.rs share: a capability on the
-- message is where the reply goes and is kept, and a message without one is answered on the one kept.
pub mod Laws
mod Tests
use strong_ipc.Prelude.{
  ℕ, Bool, true, false, ◌&&◌, Option, none, some, List, [], ◌∷◌, ◌==◌, if◌then◌else◌,
}
use strong_ipc.Prelude.Family.{put}
use strong_ipc.Message.{SocketId, Message, from_data}
use strong_ipc.Shards.{DashMap}
use strong_ipc.Capability.Registry.{Reg, from_fd, clone_ref, drop_ref, unfile, close_fd}
use strong_ipc.Binding.Accept.{close_all}

-- What a call of the handler does: it leaves the process, returns without a word, or sends a message on
-- a descriptor.
pub data Action : Type 0 where
  exits : Action
  silent : Action
  replies : ℕ → Message → Action

abbrev pub same_bytes : List ℕ → List ℕ → Bool
same_bytes [] [] = true
same_bytes [] (y ∷ ys) = false
same_bytes (x ∷ xs) [] = false
same_bytes (x ∷ xs) (y ∷ ys) = x == y && same_bytes xs ys

-- `b"QUIT"`
abbrev pub quit : List ℕ
quit = b'Q' ∷ b'U' ∷ b'I' ∷ b'T' ∷ []

module _ (d : DashMap ℕ) where
  -- `EchoHandler`, with the registry of its process
  pub record Echo : Type 0 where
    pub reg : Reg d
    pub cached : Option ℕ

  -- A `Ref` is dropped; with the last one its inner is unfiled and its descriptor closed.
  unfoldable pub let_go : ℕ → Reg d → Reg d
  unfolding drop_ref unfile close_fd
  let_go a s =
      let t = drop_ref d a s in if (t.inner a).strong == 0 then close_fd d a (unfile d a t) else t

  abbrev pub let_go_old : Option ℕ → Reg d → Reg d
  let_go_old none s = s
  let_go_old (some c) s = let_go c s

  -- `*self.cached.lock().unwrap() = Some(r.clone())`
  abbrev pub keep : ℕ → Reg d → Option ℕ → Echo
  keep a s old = record { reg = let_go_old old (clone_ref d a s); cached = some a }

  abbrev pub on_cached : Option ℕ → Echo → Option ℕ × Echo
  on_cached none s = (none, s)
  on_cached (some a) s = (some a, record s { reg = clone_ref d a s.reg })

  -- The `match fds.next()`, then `drop(fds)`
  unfoldable pub reply_ref : (ℕ → Option SocketId) → List ℕ → Echo → Option ℕ × Echo
  unfolding let_go from_fd clone_ref
  reply_ref stat [] s = on_cached s.cached s
  reply_ref stat (fd ∷ rest) s =
      let (a, r) = from_fd d (stat fd) fd s.reg in
      let t = keep a r s.cached in (some a, record t { reg = close_all d rest t.reg })

  -- `reply.send(message)`, then `reply` is dropped.
  abbrev pub answer : Message → Option ℕ × Echo → Action × Echo
  answer m (none, s) = (silent, s)
  answer m (some a, s) = (replies (s.reg.inner a).fd m, record s { reg = let_go a s.reg })

  -- `EchoHandler::handle`
  unfoldable pub handle : (ℕ → Option SocketId) → List ℕ → List ℕ → Echo → Action × Echo
  unfolding reply_ref from_data
  handle stat bytes fds s =
      if same_bytes bytes quit then (exits, s) else answer (from_data bytes) (reply_ref stat fds s)
