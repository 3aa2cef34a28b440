-- ===== src/Capability/Registry.antt =====
-- `REFS`, `Ref::from_fd`, `Ref::clone` and `RefInner::drop` of src/capability.rs, with the kernel's
-- table of open descriptors. An `Arc<RefInner>` is an address; addresses are not reused, since a `Weak`
-- in the registry keeps the allocation.
pub mod Steps
pub mod Invariant
pub mod Identity
use strong_ipc.Prelude.{
  ℕ, ◌+◌, ◌-◌, Bool, Option, none, some, List, [], ◌∷◌, ltb, ◌==◌, if◌then◌else◌,
}
use strong_ipc.Prelude.Family.{put}
use strong_ipc.Io.{Piece, text, number}
use strong_ipc.Message.{SocketId}
use strong_ipc.Shards.{DashMap}

-- How far an inner is on its way out: not at all, or with `strong == 0` its `Drop` body not yet run;
-- that body run; its descriptor closed.
pub data Phase : Type 0 where
  filed unfiled closed : Phase

pub record Inner : Type 0 where
  pub fd : ℕ
  pub id : Option SocketId
  pub strong : ℕ
  pub phase : Phase

module _ (d : DashMap ℕ) where
  open d use {Map, get, insert, remove_if}

  -- `refs` holds `Weak`s, `table` the socket that each open descriptor names.
  pub record Reg : Type 0 where
    pub refs : Map
    pub inner : ℕ → Inner
    pub next : ℕ
    pub table : ℕ → Option ℕ

  -- `Arc::new(RefInner::new(fd, id))`
  abbrev pub allocate : Reg → ℕ → Option SocketId → Reg
  allocate s fd id = record s {
    inner = put s.inner s.next (record { fd = fd; id = id; strong = 1; phase = filed });
    next = s.next + 1;
  }

  -- Allocate, and file a `Weak` over whatever stands there.
  abbrev pub file : Reg → ℕ → SocketId → ℕ × Reg
  file s fd id = (s.next, record (allocate s fd (some id)) { refs = insert id s.next s.refs })

  abbrev pub add_strong : (ℕ → Inner) → ℕ → ℕ → Inner
  add_strong inner a = put inner a (record (inner a) { strong = (inner a).strong + 1 })

  -- A live entry: share it, and close the redundant descriptor.
  abbrev pub reuse : Reg → ℕ → ℕ → ℕ × Reg
  reuse s fd a = (a, record s { inner = add_strong s.inner a; table = put s.table fd none })

  abbrev pub hit_or_file : Reg → ℕ → SocketId → Option ℕ → ℕ × Reg
  hit_or_file s fd id none = file s fd id
  hit_or_file s fd id (some a) = if ltb 0 (s.inner a).strong then reuse s fd a else file s fd id

  -- `Ref::from_fd`, given the result of its `fstat`
  unfoldable pub from_fd : Option SocketId → ℕ → Reg → ℕ × Reg
  from_fd none fd s = (s.next, allocate s fd none)
  from_fd (some id) fd s = hit_or_file s fd id (get s.refs id)

  -- `Ref::clone`
  unfoldable pub clone_ref : ℕ → Reg → Reg
  clone_ref a s = record s { inner = add_strong s.inner a }

  -- The `Arc`'s strong count falls.
  unfoldable pub drop_ref : ℕ → Reg → Reg
  drop_ref a s = record s {
    inner = put s.inner a (record (s.inner a) { strong = (s.inner a).strong - 1 });
  }

  abbrev pub unfile_entry : Option SocketId → Reg → Map
  unfile_entry none s = s.refs
  unfile_entry (some id) s = remove_if id (λ b. (s.inner b).strong == 0) s.refs

  -- `RefInner::drop`
  unfoldable pub unfile : ℕ → Reg → Reg
  unfile a s = record s {
    refs = unfile_entry (s.inner a).id s;
    inner = put s.inner a (record (s.inner a) { phase = unfiled });
  }

  -- The field `fd` drops after that body.
  unfoldable pub close_fd : ℕ → Reg → Reg
  close_fd a s = record s {
    inner = put s.inner a (record (s.inner a) { phase = closed });
    table = put s.table (s.inner a).fd none;
  }

-- `Ref::is_same`, `PartialEq` and `Hash`: the address of the shared inner
unfoldable pub is_same : ℕ → ℕ → Bool
is_same a b = a == b

-- `Ref::identity`, the address of the shared inner
unfoldable pub identity : ℕ → ℕ
identity a = a

-- `PartialEq for Ref`
unfoldable pub ref_eq : ℕ → ℕ → Bool
unfolding is_same
ref_eq a b = is_same a b

-- `Hash for Ref`: `write` is the hasher's `ptr::hash`.
unfoldable pub hash_ref : {S : Type 0} → (ℕ → S → S) → ℕ → S → S
unfolding identity
hash_ref write a state = write (identity a) state

-- `Debug for Ref`, which prints the same identity
unfoldable pub debug_ref : ℕ → List Piece
unfolding identity
debug_ref a = text "Ref(" ∷ number (identity a) ∷ text ")" ∷ []
