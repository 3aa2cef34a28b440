-- ===== src/Examples/Echo/Laws.antt =====
-- Where the echo goes, and that no descriptor of the message stays behind.
use strong_ipc.Prelude.{
  ℕ, ◌+◌, ◌<◌, ◌≡◌, ◌≢◌, refl, sym, ap, ◌∙◌, false, Option, none, some, List, [], ◌∷◌, All,
  All-weaken, arith,
}
use strong_ipc.Prelude.Family.{put}
use strong_ipc.Message.{SocketId, from_data}
use strong_ipc.Shards.{DashMap}
use strong_ipc.Capability.Registry.{Reg, from_fd, hit_or_file, clone_ref}
use strong_ipc.Capability.Registry.Steps.{Reach, later, intern, clone, IsUnowned, StatOf}
use strong_ipc.Capability.Registry.Invariant.{Inv, Reach-Inv}
use strong_ipc.Capability.Registry.Identity.{from_fd-Sends}
use strong_ipc.Binding.Accept.{close_all}
use strong_ipc.Examples.Echo.{
  Echo, Action, replies, same_bytes, quit, let_go, let_go_old, answer, handle,
}

module _ (d : DashMap ℕ) where
  close_all-none :
      (l : List ℕ) (s : Reg d) (g : ℕ) → s.table g ≡ none → (close_all d l s).table g ≡ none
  close_all-none [] s g e = e
  close_all-none (f ∷ l) s g e =
      close_all-none l (record s { table = put s.table f none }) g (ground arith)

  pub close_all-closed : (l : List ℕ) (s : Reg d) → All (λ g. (close_all d l s).table g ≡ none) l
  close_all-closed [] s = tt
  close_all-closed (f ∷ l) s =
      let t = record s { table = put s.table f none } in
      (close_all-none l t f (ground arith), close_all-closed l t)

  close_all-keeps :
      (l : List ℕ) (s : Reg d) (g : ℕ)
      → All (λ f. f ≢ g) l
      → ((close_all d l s).table g ≡ s.table g) × ((close_all d l s).inner ≡ s.inner)
  close_all-keeps [] s g ne = (refl, refl)
  close_all-keeps (f ∷ l) s g (ne, rest) =
      let (p, q) = close_all-keeps l (record s { table = put s.table f none }) g rest in
      (p ∙ (ground arith), q)

  -- Letting `c` go leaves every other live inner and its descriptor as they are, and `c` too if it is
  -- held more often.
  let_go-keeps :
      (ident : ℕ → SocketId) (s : Reg d) (c a n : ℕ)
      → Inv d ident s
      → 0 < (s.inner c).strong
      → n < (s.inner a).strong
      → (c ≡ a → n + 1 < (s.inner a).strong)
      → (n < ((let_go d c s).inner a).strong)
        × (((let_go d c s).inner a).fd ≡ (s.inner a).fd)
        × ((let_go d c s).table (s.inner a).fd ≡ s.table (s.inner a).fd)
  unfolding let_go
  let_go-keeps ident s c a n v lc la twice =
      ground (arith, twice, v.counts c, v.counts a, v.distinct c a)

  let_go-shared :
      (s : Reg d) (a : ℕ)
      → 1 < (s.inner a).strong
      → (0 < ((let_go d a s).inner a).strong)
        × (((let_go d a s).inner a).fd ≡ (s.inner a).fd)
        × ((let_go d a s).table ≡ s.table)
  unfolding let_go
  let_go-shared s a h = ground arith

  module _ (ident : ℕ → SocketId) (s : Reg d) (v : Inv d ident s) where
    -- Whoever was live stays so, and is held once more if it is what `from_fd` returns.
    from_fd-live :
        (stat : Option SocketId) (fd c : ℕ)
        → 0 < (s.inner c).strong
        → (0 < ((from_fd d stat fd s).1.inner c).strong)
          × ((from_fd d stat fd s).0 ≡ c → 1 < ((from_fd d stat fd s).1.inner c).strong)
    unfolding from_fd
    from_fd-live none fd c h = ground (arith, v.counts c)
    from_fd-live (some i) fd c h = ground (arith, v.counts c)

    from_fd-owner :
        (stat : Option SocketId) (fd g : ℕ)
        → IsUnowned d ident s g
        → g ≢ fd
        → g ≢ ((from_fd d stat fd s).1.inner (from_fd d stat fd s).0).fd
    unfolding from_fd
    from_fd-owner none fd g u ne = ground (arith, ne)
    from_fd-owner (some i) fd g u ne = go (d.get s.refs i) refl
      where
        go :
            (o : Option ℕ)
            → d.get s.refs i ≡ o
            → g ≢ ((hit_or_file d s fd i o).1.inner (hit_or_file d s fd i o).0).fd
        go none q = ground (arith, ne)
        go (some b) q = ground (arith, ne, u b, v.entries i b)

  clone_ref-fd : (s : Reg d) (a : ℕ) → ((clone_ref d a s).inner a).fd ≡ (s.inner a).fd
  unfolding clone_ref
  clone_ref-fd s a = ground arith

  abbrev Kept : ℕ → Reg d → Reg d → Type 0
  Kept a s t =
      (1 < (t.inner a).strong)
      × ((t.inner a).fd ≡ (s.inner a).fd)
      × (t.table (s.inner a).fd ≡ s.table (s.inner a).fd)

  let_go_old-Kept :
      (ident : ℕ → SocketId) (s : Reg d) (a : ℕ) (old : Option ℕ)
      → Inv d ident s
      → 1 < (s.inner a).strong
      → ((c : ℕ) → old ≡ some c → (0 < (s.inner c).strong) × (c ≡ a → 2 < (s.inner a).strong))
      → Kept a s (let_go_old d old s)
  let_go_old-Kept ident s a none v la h = (la, refl, refl)
  let_go_old-Kept ident s a (some c) v la h =
      let_go-keeps ident s c a 1 v (h c refl).0 la (h c refl).1

  module _ (ident : ℕ → SocketId) (s : Echo d) (reach : Reach d ident s.reg) where
    -- What a message whose first descriptor names socket `x` leads to
    abbrev pub Serves : ℕ → List ℕ → List ℕ → Action × Echo d → Type 0
    Serves x bytes rest r =
        (b : ℕ) × (r.0 ≡ replies (r.1.reg.inner b).fd (from_data bytes))
        × (r.1.cached ≡ some b)
        × (0 < (r.1.reg.inner b).strong)
        × (r.1.reg.table (r.1.reg.inner b).fd ≡ some x)
        × All (λ g. r.1.reg.table g ≡ none) rest

    v : Inv d ident s.reg
    v = Reach-Inv d ident reach

    answer-Serves :
        (a x : ℕ) (bytes rest : List ℕ) (t : Reg d)
        → 1 < (t.inner a).strong
        → t.table (t.inner a).fd ≡ some x
        → All (λ g. t.table g ≡ none) rest
        → Serves x bytes rest
            (answer d (from_data bytes) (some a, record { reg = t; cached = some a }))
    answer-Serves a x bytes rest t held open_ closed_ =
        let (alive, fd, table) = let_go-shared t a held in
        (
          a,
          ap (λ f. replies f (from_data bytes)) (sym fd),
          refl,
          alive,
          ap (λ f. (let_go d a t).table f) fd ∙ (ap (λ g. g (t.inner a).fd) table ∙ open_),
          All-weaken (λ g. t.table g ≡ none) (λ g. (let_go d a t).table g ≡ none)
              (λ g q. ap (λ h. h g) table ∙ q) rest closed_,
        )

    -- For a message that is not the order to quit, with descriptors that no `Ref` owns, from every
    -- reachable state of the registry in which the kept capability, if any, is live: the echo is sent,
    -- with the message's own bytes, to the socket that the first descriptor names; that capability is
    -- kept, alive; and every other descriptor of the message is closed.
    pub handle-Serves :
        (stat : ℕ → Option SocketId) (bytes : List ℕ) (fd x : ℕ) (rest : List ℕ)
        → same_bytes bytes quit ≡ false
        → s.reg.table fd ≡ some x
        → IsUnowned d ident s.reg fd
        → StatOf d ident x (stat fd)
        → All (λ g. IsUnowned d ident s.reg g × (g ≢ fd)) rest
        → ((c : ℕ) → s.cached ≡ some c → 0 < (s.reg.inner c).strong)
        → Serves x bytes rest (handle d stat bytes (fd ∷ rest) s)
    unfolding handle
    handle-Serves stat bytes fd x rest going e u h others live =
        let r = from_fd d (stat fd) fd s.reg in
        let a = r.0 in
        let reach₁ = later reach (intern fd x (stat fd) e u h) in
        let (alive, sends) = from_fd-Sends d ident reach fd x (stat fd) e u h in
        let s₂ = clone_ref d a r.1 in
        let v₂ = Reach-Inv d ident (later reach₁ (clone a alive)) in
        let s₃ = let_go_old d s.cached s₂ in
        let (more, same, table) : Kept a s₂ s₃ =
          let_go_old-Kept ident s₂ a s.cached v₂ (ground (arith, alive))
            (λ c q. ground (arith, from_fd-live ident s.reg v (stat fd) fd c (live c q))) in
        let named : (s₃.inner a).fd ≡ (r.1.inner a).fd = same ∙ clone_ref-fd r.1 a in
        let (kept, inner) = close_all-keeps rest s₃ (s₃.inner a).fd (
          All-weaken (λ g. IsUnowned d ident s.reg g × (g ≢ fd)) (λ g. g ≢ (s₃.inner a).fd)
            (λ g o q. from_fd-owner ident s.reg v (stat fd) fd g o.0 o.1 (q ∙ named)) rest
            others) in
        let s₄ = close_all d rest s₃ in
        let open_ : s₄.table (s₄.inner a).fd ≡ some x =
          ap (λ i. s₄.table (i a).fd) inner
          ∙ (kept ∙ (ap s₃.table same ∙ (table ∙ (ap r.1.table (clone_ref-fd r.1 a) ∙ sends)))) in
        rw going (answer-Serves a x bytes rest s₄ (rw inner more) open_ (close_all-closed rest s₃))
