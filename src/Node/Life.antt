-- ===== src/Node/Life.antt =====
-- The life of a node of src/node.rs from `Node::new_raw` on: its handle, its receive task with the guards
-- that ride in it, and the capabilities that reach it. The runtime itself is taken to stay up.
pub mod Laws
mod Tests
use strong_ipc.Prelude.{ℕ, ◌+◌, ◌-◌, ◌<◌, ◌≡◌, ◌⊎◌, Bool, true, false}

-- The `Node` value: with its owner, given up by `to_service`, or dropped
pub data Handle : Type 0 where
  held detached dropped : Handle

-- The spawned task: not polled yet; in `recv_loop`, at `socket.recv`; in its handler's `handle`; out of
-- `recv_loop`, its socket closed, with tombstone and local entry; with its tombstone only; with its local
-- entry only; with neither. `discarded` is aborted before its first poll: what it has captured is dropped,
-- in an order that the source does not fix.
pub data Task : Type 0 where
  unpolled receiving handling left discarded unfiled declared ended : Task

-- `refs` counts the open descriptors of the capability's socket, in any process or in flight, `queued` the
-- messages that the node's socket holds. `cut_off` says that an io error, a panic in the handler or an
-- empty message has ended the loop. `has_entry`: the task has not dropped its `_local`; whether the
-- map still has what was filed is for Local.
pub record Life : Type 0 where
  pub handle : Handle
  pub task : Task
  pub aborted : Bool
  pub cut_off : Bool
  pub dead : Bool
  pub has_entry : Bool
  pub refs : ℕ
  pub queued : ℕ

-- `Node::new_raw` has returned the node and its one `Ref`.
abbrev pub born : Life
born = record {
  handle = held;
  task = unpolled;
  aborted = false;
  cut_off = false;
  dead = false;
  has_entry = true;
  refs = 1;
  queued = 0;
}

-- `Node::is_dead`
unfoldable pub is_dead : Life → Bool
is_dead s = s.dead

-- `Node::to_service`: the abort handle is disarmed.
unfoldable pub to_service : Life → Life
to_service s = record s { handle = detached }

-- `Node` has no `Drop`; its `AbortOnDrop` asks for the task's end.
unfoldable pub drop_node : Life → Life
drop_node s = record s { handle = dropped; aborted = true }

-- What the task does by itself, and the return of its handler's `handle`. A socket whose other end is
-- closed gives what it holds first; `skips` is a truncated message.
pub data Wind (s : Life) : Life → Type 0 where
  polls : s.task ≡ unpolled → Wind s (record s { task = receiving })
  takes :
      s.task ≡ receiving
      → 0 < s.queued
      → Wind s (record s { task = handling; queued = s.queued - 1 })
  skips : s.task ≡ receiving → 0 < s.queued → Wind s (record s { queued = s.queued - 1 })
  returns : s.task ≡ handling → Wind s (record s { task = receiving })
  hangs_up : s.task ≡ receiving → s.refs ≡ 0 → s.queued ≡ 0 → Wind s (record s { task = left })
  aborts :
      (s.task ≡ receiving) ⊎ (s.task ≡ handling)
      → s.aborted ≡ true
      → Wind s (record s { task = left })
  discards : s.task ≡ unpolled → s.aborted ≡ true → Wind s (record s { task = discarded })
  unfiles :
      (s.task ≡ left) ⊎ (s.task ≡ discarded)
      → Wind s (record s { task = unfiled; has_entry = false })
  declares : s.task ≡ unfiled → Wind s (record s { task = ended; dead = true })
  declares_first : s.task ≡ discarded → Wind s (record s { task = declared; dead = true })
  unfiles_last : s.task ≡ declared → Wind s (record s { task = ended; has_entry = false })

pub data Step (s : Life) : Life → Type 0 where
  wind : {t : Life} → Wind s t → Step s t
  is_cut_off :
      (s.task ≡ receiving) ⊎ (s.task ≡ handling) → Step s (record s { task = left; cut_off = true })
  arrives : 0 < s.refs → Step s (record s { queued = s.queued + 1 })
  share : 0 < s.refs → Step s (record s { refs = s.refs + 1 })
  release : 0 < s.refs → Step s (record s { refs = s.refs - 1 })
  give_up : s.handle ≡ held → Step s (to_service s)
  drops : s.handle ≡ held → Step s (drop_node s)

pub data Reach : Life → Type 0 where
  start : Reach born
  later : {s t : Life} → Reach s → Step s t → Reach t

pub data Winds : Life → Life → Type 0 where
  here : {s : Life} → Winds s s
  then : {s t u : Life} → Wind s t → Winds t u → Winds s u
