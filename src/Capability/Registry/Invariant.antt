-- ===== src/Capability/Registry/Invariant.antt =====
-- The invariant of the registry; every step keeps it.
use strong_ipc.Prelude.{
  ℕ, ◌+◌, ◌<◌, ◌≡◌, ◌≢◌, refl, Option, none, some, inl, inr, arith, ◌==◌, ltb, ltb→lt, Bool-cases,
  ℕ_discrete,
}
use strong_ipc.Prelude.Family.{put}
use strong_ipc.Message.{SocketId}
use strong_ipc.Shards.{DashMap, SocketId-discrete}
use strong_ipc.Capability.Registry.{
  filed, unfiled, closed, Inner, Reg, from_fd, clone_ref, drop_ref, unfile, close_fd, reuse,
  hit_or_file, allocate, unfile_entry,
}
use strong_ipc.Capability.Registry.Steps.{
  IsUnowned, StatOf, Step, receive, discard, intern, clone, release, run_drop, close, init, Reach,
  start, later,
}

module _ (d : DashMap ℕ) (ident : ℕ → SocketId) where
  open d use {get, get-new, get-insert, get-remove_if}

  -- The descriptor of an inner that has not closed it names a socket, and if the inner has a key, the
  -- one that the key stands for.
  abbrev pub Owns : Reg d → ℕ → Type 0
  Owns s a =
      (x : ℕ) × (s.table (s.inner a).fd ≡ some x)
      × ((i : SocketId) → (s.inner a).id ≡ some i → ident x ≡ i)

  pub record Inv (s : Reg d) : Type 0 where
    pub owned : (a : ℕ) → a < s.next → (s.inner a).phase ≢ closed → Owns s a
    pub distinct :
        (a b : ℕ)
        → a < s.next
        → b < s.next
        → (s.inner a).phase ≢ closed
        → (s.inner b).phase ≢ closed
        → (s.inner a).fd ≡ (s.inner b).fd
        → a ≡ b
    pub entries :
        (i : SocketId) (a : ℕ)
        → get s.refs i ≡ some a
        → (a < s.next) × ((s.inner a).id ≡ some i) × ((s.inner a).phase ≡ filed)
    pub live :
        (a : ℕ) (i : SocketId)
        → 0 < (s.inner a).strong
        → (s.inner a).id ≡ some i
        → get s.refs i ≡ some a
    pub counts : (a : ℕ) → 0 < (s.inner a).strong → (a < s.next) × ((s.inner a).phase ≡ filed)
    pub sockets :
        (f g x y : ℕ) → s.table f ≡ some x → s.table g ≡ some y → ident x ≡ ident y → x ≡ y

  init-Inv : Inv (init d ident)
  init-Inv = record {
    owned = λ a lt p. absurd (omega arith);
    distinct = λ a b lt. absurd (omega arith);
    entries = λ i a e. absurd (ground (arith, get-new i));
    live = λ a i lt. absurd (omega arith);
    counts = λ a lt. absurd (omega arith);
    sockets = λ f g x y e. cc;
  }

  module _ {s : Reg d} (v : Inv s) where
    -- A write at `a` that keeps the descriptor and the key, and opens nothing that was closed.
    module _ (a : ℕ) (r : Inner) (same_fd : r.fd ≡ (s.inner a).fd) (same_id : r.id ≡ (s.inner a).id)
        (opens_none : (s.inner a).phase ≡ closed → r.phase ≡ closed) where
      kept_owned :
          (b : ℕ)
          → b < s.next
          → (put s.inner a r b).phase ≢ closed
          → Owns (record s { inner = put s.inner a r }) b
      kept_owned b lt p =
          let (y, e, h) = v.owned b lt (λ z. p (ground (arith, opens_none))) in
          (y, ground arith, λ i g. h i (ground arith))

      kept_distinct :
          (b c : ℕ)
          → b < s.next
          → c < s.next
          → (put s.inner a r b).phase ≢ closed
          → (put s.inner a r c).phase ≢ closed
          → (put s.inner a r b).fd ≡ (put s.inner a r c).fd
          → b ≡ c
      kept_distinct b c lb lc p q e =
          v.distinct b c lb lc (λ z. p (ground (arith, opens_none)))
            (λ z. q (ground (arith, opens_none))) (ground arith)

    clone_ref-Inv : (a : ℕ) → 0 < (s.inner a).strong → Inv (clone_ref d a s)
    unfolding clone_ref
    clone_ref-Inv a c = record {
      owned = kept_owned a _ refl refl (λ z. z);
      distinct = kept_distinct a _ refl refl (λ z. z);
      entries = λ i b e. ground (arith, v.entries i b);
      live = λ b i lt e. ground (arith, v.live b i, v.live a i);
      counts = λ b lt. ground (arith, v.counts b, v.counts a);
      sockets = v.sockets;
    }

    drop_ref-Inv : (a : ℕ) → 0 < (s.inner a).strong → Inv (drop_ref d a s)
    unfolding drop_ref
    drop_ref-Inv a c = record {
      owned = kept_owned a _ refl refl (λ z. z);
      distinct = kept_distinct a _ refl refl (λ z. z);
      entries = λ i b e. ground (arith, v.entries i b);
      live = λ b i lt e. ground (arith, v.live b i, v.live a i);
      counts = λ b lt. ground (arith, v.counts b, v.counts a);
      sockets = v.sockets;
    }

    -- `remove_if` leaves live entries, and no dead one under its key.
    unfile_entry-get :
        (o : Option SocketId) (i : SocketId) (b : ℕ)
        → get (unfile_entry d o s) i ≡ some b
        → (get s.refs i ≡ some b) × (o ≡ some i → 0 < (s.inner b).strong)
    unfile_entry-get none i b e = (e, λ q. absurd (cc))
    unfile_entry-get (some j) i b e =
        let rule = get-remove_if j (λ c. (s.inner c).strong == 0) s.refs i in
        elim (SocketId-discrete j i) [
          | yes q ↦ (ground (arith, rule), λ w. ground (arith, rule))
          | no q ↦ (ground (arith, rule), λ w. absurd (q (ground arith)))
        ]

    unfile_entry-keeps :
        (o : Option SocketId) (i : SocketId) (b : ℕ)
        → get s.refs i ≡ some b
        → 0 < (s.inner b).strong
        → get (unfile_entry d o s) i ≡ some b
    unfile_entry-keeps none i b e h = e
    unfile_entry-keeps (some j) i b e h =
        ground (arith, get-remove_if j (λ c. (s.inner c).strong == 0) s.refs i)

    unfile-Inv :
        (a : ℕ)
        → a < s.next
        → (s.inner a).strong ≡ 0
        → (s.inner a).phase ≡ filed
        → Inv (unfile d a s)
    unfolding unfile
    unfile-Inv a lt z p = record {
      owned = kept_owned a _ refl refl (λ q. cc);
      distinct = kept_distinct a _ refl refl (λ q. cc);
      entries = λ i b e.
          let (q, alive) = unfile_entry-get (s.inner a).id i b e in
          ground (arith, v.entries i b q, alive);
      live = λ b i h e.
          unfile_entry-keeps (s.inner a).id i b (ground (arith, v.live b i)) (ground arith);
      counts = λ b h. ground (arith, v.counts b, v.counts a);
      sockets = v.sockets;
    }

    close_fd-Inv : (a : ℕ) → a < s.next → (s.inner a).phase ≡ unfiled → Inv (close_fd d a s)
    unfolding close_fd
    close_fd-Inv a lt p = record {
      owned = λ b lb q.
          let (y, e, h) = v.owned b lb (λ z. q (ground arith)) in
          (
            y,
            ground (arith, v.distinct b a lb lt (λ z. q (ground arith)) (λ z. (cc))),
            λ i g. h i (ground arith),
          );
      distinct = kept_distinct a _ refl refl (λ q. refl);
      entries = λ i b e. ground (arith, v.entries i b);
      live = λ b i h e. ground (arith, v.live b i, v.live a i, v.counts a);
      counts = λ b h. ground (arith, v.counts b, v.counts a);
      sockets = λ f g y z' q r w. ground (arith, v.sockets f g y z');
    }

    -- A new inner for a descriptor of socket `x` that no other owns
    module _ (fd x : ℕ) (id : Option SocketId) (e : s.table fd ≡ some x)
        (u : IsUnowned d ident s fd) (keyed : (i : SocketId) → id ≡ some i → ident x ≡ i) where
      abbrev t : Reg d
      t = allocate d s fd id

      new_owned : (b : ℕ) → b < s.next + 1 → (t.inner b).phase ≢ closed → Owns t b
      new_owned b lb q = elim (ℕ_discrete s.next b) [
        | yes w ↦ (x, ground arith, λ i g. keyed i (ground arith))
        | no w ↦
            let (y, f, h) = v.owned b (omega arith) (λ z. q (ground arith)) in
            (y, ground arith, λ i g. h i (ground arith))
      ]

      new_distinct :
          (b c : ℕ)
          → b < s.next + 1
          → c < s.next + 1
          → (t.inner b).phase ≢ closed
          → (t.inner c).phase ≢ closed
          → (t.inner b).fd ≡ (t.inner c).fd
          → b ≡ c
      new_distinct b c lb lc p q f = ground (arith, v.distinct b c, u b, u c)

      new_counts : (b : ℕ) → 0 < (t.inner b).strong → (b < s.next + 1) × ((t.inner b).phase ≡ filed)
      new_counts b h = ground (arith, v.counts b)

      -- Not filed, or filed where no live entry stands.
      allocate-Inv : id ≡ none → Inv t
      allocate-Inv n = record {
        owned = new_owned;
        distinct = new_distinct;
        entries = λ i b f. ground (arith, v.entries i b);
        live = λ b i h f. ground (arith, v.live b i);
        counts = new_counts;
        sockets = v.sockets;
      }

      file-Inv :
          (i : SocketId)
          → id ≡ some i
          → ((b : ℕ) → get s.refs i ≡ some b → (s.inner b).strong ≡ 0)
          → Inv (record t { refs = d.insert i s.next s.refs })
      file-Inv i same dead = record {
        owned = new_owned;
        distinct = new_distinct;
        entries = λ j b f. ground (arith, get-insert i s.next s.refs j, v.entries j b);
        live = λ b j h f. ground (arith, get-insert i s.next s.refs j, v.live b j, dead b);
        counts = new_counts;
        sockets = v.sockets;
      }

    reuse-Inv :
        (fd a : ℕ) → IsUnowned d ident s fd → 0 < (s.inner a).strong → Inv (reuse d s fd a).1
    reuse-Inv fd a u c = record {
      owned = λ b lb q.
          let (y, f, h) = v.owned b lb (λ z. q (ground arith)) in
          (y, ground (arith, u b lb (λ z. q (ground arith))), λ i g. h i (ground arith));
      distinct = kept_distinct a _ refl refl (λ z. z);
      entries = λ i b f. ground (arith, v.entries i b);
      live = λ b i h f. ground (arith, v.live b i, v.live a i);
      counts = λ b h. ground (arith, v.counts b, v.counts a);
      sockets = λ f g y z p q r. ground (arith, v.sockets f g y z);
    }

    from_fd-Inv :
        (fd x : ℕ) (stat : Option SocketId)
        → s.table fd ≡ some x
        → IsUnowned d ident s fd
        → StatOf d ident x stat
        → Inv (from_fd d stat fd s).1
    unfolding from_fd
    from_fd-Inv fd x none e u h = allocate-Inv fd x none e u (λ i q. absurd (cc)) refl
    from_fd-Inv fd x (some id) e u h = go (get s.refs id) refl
      where
        keyed : (i : SocketId) → some id ≡ some i → ident x ≡ i
        keyed i q = ground arith

        go : (r : Option ℕ) → get s.refs id ≡ r → Inv (hit_or_file d s fd id r).1
        go none q = file-Inv fd x (some id) e u keyed id refl (λ b w. absurd (ground arith))
        go (some a) q = elim (Bool-cases (ltb 0 (s.inner a).strong)) [
          | inl alive ↦ rw alive (reuse-Inv fd a u (ltb→lt _ _ alive))
          | inr dead ↦ rw dead (file-Inv fd x (some id) e u keyed id refl (λ b w. ground arith))
        ]

  Step-Inv : {s t : Reg d} → Step d ident s t → Inv s → Inv t
  Step-Inv {s} (receive fd x free unique) v = record {
    owned = λ a lt p. let (y, e, h) = v.owned a lt p in (y, ground arith, h);
    distinct = v.distinct;
    entries = v.entries;
    live = v.live;
    counts = v.counts;
    sockets = λ f g y z p q r. ground (arith, unique f y, unique g z, v.sockets f g y z);
  }
  Step-Inv {s} (discard fd u) v = record {
    owned = λ a lt p. let (y, e, h) = v.owned a lt p in (y, ground (arith, u a lt p), h);
    distinct = v.distinct;
    entries = v.entries;
    live = v.live;
    counts = v.counts;
    sockets = λ f g y z p q r. ground (arith, v.sockets f g y z);
  }
  Step-Inv {s} (intern fd x stat e u h) v = from_fd-Inv v fd x stat e u h
  Step-Inv {s} (clone a c) v = clone_ref-Inv v a c
  Step-Inv {s} (release a c) v = drop_ref-Inv v a c
  Step-Inv {s} (run_drop a lt z p) v = unfile-Inv v a lt z p
  Step-Inv {s} (close a lt p) v = close_fd-Inv v a lt p

  pub Reach-Inv : {s : Reg d} → Reach d ident s → Inv s
  Reach-Inv start = init-Inv
  Reach-Inv (later r st) = Step-Inv st (Reach-Inv r)
