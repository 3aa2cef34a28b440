-- ===== src/Capability/Registry/Steps.antt =====
-- What any number of threads and peers may do to the registry, one access at a time.
use strong_ipc.Prelude.{ℕ, ◌<◌, ◌≡◌, ◌≢◌, Option, none, some}
use strong_ipc.Prelude.Family.{put}
use strong_ipc.Message.{SocketId}
use strong_ipc.Shards.{DashMap}
use strong_ipc.Capability.Registry.{
  filed, unfiled, closed, Reg, from_fd, clone_ref, drop_ref, unfile, close_fd,
}

-- `ident x` is the device and inode of socket `x` for as long as it is open.
module _ (d : DashMap ℕ) (ident : ℕ → SocketId) where
  -- No `RefInner` owns this descriptor.
  abbrev pub IsUnowned : Reg d → ℕ → Type 0
  IsUnowned s fd = (a : ℕ) → a < s.next → (s.inner a).phase ≢ closed → (s.inner a).fd ≢ fd

  -- What `fstat` of an open descriptor of socket `x` may say.
  abbrev pub StatOf : ℕ → Option SocketId → Type 0
  StatOf x none = Unit {0}
  StatOf x (some id) = ident x ≡ id

  pub data Step (s : Reg d) : Reg d → Type 0 where
    -- A descriptor arrives. Two open sockets never share an inode.
    receive :
        (fd x : ℕ)
        → s.table fd ≡ none
        → ((g y : ℕ) → s.table g ≡ some y → ident y ≡ ident x → y ≡ x)
        → Step s (record s { table = put s.table fd (some x) })
    -- A descriptor that no `Ref` owns is closed.
    discard : (fd : ℕ) → IsUnowned s fd → Step s (record s { table = put s.table fd none })
    intern :
        (fd x : ℕ) (stat : Option SocketId)
        → s.table fd ≡ some x
        → IsUnowned s fd
        → StatOf x stat
        → Step s (from_fd d stat fd s).1
    clone : (a : ℕ) → 0 < (s.inner a).strong → Step s (clone_ref d a s)
    release : (a : ℕ) → 0 < (s.inner a).strong → Step s (drop_ref d a s)
    run_drop :
        (a : ℕ)
        → a < s.next
        → (s.inner a).strong ≡ 0
        → (s.inner a).phase ≡ filed
        → Step s (unfile d a s)
    close : (a : ℕ) → a < s.next → (s.inner a).phase ≡ unfiled → Step s (close_fd d a s)

  -- A process that has no `Ref` yet and no open descriptor
  abbrev pub init : Reg d
  init = record {
    refs = d.new;
    inner = λ _. record { fd = 0; id = none; strong = 0; phase = closed };
    next = 0;
    table = λ _. none;
  }

  pub data Reach : Reg d → Type 0 where
    start : Reach init
    later : {s t : Reg d} → Reach s → Step s t → Reach t
