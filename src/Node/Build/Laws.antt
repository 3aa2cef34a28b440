-- ===== src/Node/Build/Laws.antt =====
-- What `new_raw` leaves behind.
use strong_ipc.Prelude.{ℕ, ◌<◌, ◌≡◌, ◌≢◌, refl, ◌∙◌, false, Option, none, some, arith}
use strong_ipc.Io.{IoResult, ok, err}
use strong_ipc.Message.{SocketId, Ref}
use strong_ipc.Shards.{DashMap}
use strong_ipc.Capability.Registry.{Reg, from_fd}
use strong_ipc.Capability.Registry.Steps.{Reach, later, receive, StatOf, IsUnowned}
use strong_ipc.Capability.Registry.Invariant.{Reach-Inv}
use strong_ipc.Capability.Registry.Identity.{from_fd-Sends}
use strong_ipc.Local.{Locals, ref_local_handler}
use strong_ipc.Local.Laws.{file-local_handler}
use strong_ipc.Node.Life.{is_dead}
use strong_ipc.Node.Build.{Pair, Process, Built, built, failed, opened, ref_at, file_local, new_raw}

module _ (d : DashMap ℕ) (ident : ℕ → SocketId) where
  -- The two new descriptors and sockets are new: no descriptor has the numbers, no open socket the
  -- inodes.
  pub record IsNew (p : Pair) (r : Reg d) : Type 0 where
    pub tx_free : r.table p.tx ≡ none
    pub rx_free : r.table p.rx ≡ none
    pub apart : p.tx ≢ p.rx
    pub x_new : (g z : ℕ) → r.table g ≡ some z → ident z ≢ ident p.x
    pub y_new : (g z : ℕ) → r.table g ≡ some z → ident z ≢ ident p.y
    pub inodes : ident p.x ≢ ident p.y

  opened-Reach : (p : Pair) (r : Reg d) → Reach d ident r → IsNew p r → Reach d ident (opened d p r)
  opened-Reach p r reach v =
      later (later reach (receive p.tx p.x v.tx_free (λ g y e q. absurd (v.x_new g y e q)))) (
        receive p.rx p.y (ground (arith, v.rx_free, v.apart))
          (λ g y e q. ground (arith, v.y_new g y, v.inodes)))

  opened-IsUnowned :
      (p : Pair) (r : Reg d) → Reach d ident r → IsNew p r → IsUnowned d ident (opened d p r) p.tx
  opened-IsUnowned p r reach v a lt ph =
      let (x, e, _) = (Reach-Inv d ident reach).owned a lt ph in λ q. ground (arith, v.tx_free)

  from_fd-keeps :
      (stat : Option SocketId) (fd g : ℕ) (r : Reg d)
      → fd ≢ g
      → (from_fd d stat fd r).1.table g ≡ r.table g
  unfolding from_fd
  from_fd-keeps none fd g r ne = refl
  from_fd-keeps (some id) fd g r ne = ground arith

  file_local-finds :
      (tag handler : ℕ) (r : Ref) (o : Option SocketId) (l : Locals d)
      → r.id ≡ o
      → o ≢ none
      → (l.cell handler).tag ≡ tag
      → 0 < (l.cell handler).strong
      → (ref_local_handler d tag r (file_local d handler o l).1).0 ≡ some handler
  file_local-finds tag handler r none l e some_id t alive = absurd (some_id refl)
  file_local-finds tag handler r (some id) l e some_id t alive =
      (file-local_handler d tag r id handler l e alive t).0

  -- What a built node's `Ref` is worth
  abbrev pub Works : Pair → ℕ → ℕ → Process d → Built d × Process d → Type 0
  Works p tag handler s (built n r, t) =
      (0 < (t.reg.inner r.addr).strong)
      × (t.reg.table r.fd ≡ some p.x)
      × (t.reg.table p.rx ≡ some p.y)
      × (is_dead n.life ≡ false)
      × (r.id ≢ none
          → (s.locals.cell handler).tag ≡ tag
          → 0 < (s.locals.cell handler).strong
          → (ref_local_handler d tag r t.locals).0 ≡ some handler)
  Works p tag handler s (failed e, t) =
      ((fd : ℕ) → t.reg.table fd ≡ s.reg.table fd)
      × (t.reg.refs ≡ s.reg.refs)
      × (t.reg.inner ≡ s.reg.inner)
      × (t.reg.next ≡ s.reg.next)
      × (t.locals ≡ s.locals)

  -- From every reachable state of the registry, with a new socketpair: if `new_raw` succeeds, the `Ref` is
  -- live and sends to the node's socket, whose other end is open, the node is not dead, and if the socket
  -- has an identity, the `Ref` reaches the node's handler in this process, whose type and life
  -- the caller vouches for; if the reactor refuses the socket, both descriptors are closed again, no
  -- `Ref` is made, and the registry of capabilities and the map of handlers are as before.
  pub new_raw-Works :
      (p : Pair) (stat : Option SocketId) (registered : IoResult Unit) (tag handler : ℕ)
      (s : Process d)
      → Reach d ident s.reg
      → IsNew p s.reg
      → StatOf d ident p.x stat
      → Works p tag handler s (new_raw d (ok p) registered stat handler s)
  unfolding new_raw is_dead
  new_raw-Works p stat (err e) tag handler s reach v h =
      (λ fd. ground (arith, v.tx_free, v.rx_free), refl, refl, refl, refl)
  new_raw-Works p stat (ok _) tag handler s reach v h =
      let after = opened d p s.reg in
      let r = from_fd d stat p.tx after in
      let (live, sends) =
        from_fd-Sends d ident (opened-Reach p s.reg reach v) p.tx p.x stat (ground (arith, v.apart))
          (opened-IsUnowned p s.reg reach v) h in
      (
        live,
        sends,
        from_fd-keeps stat p.tx p.rx after v.apart ∙ (ground arith),
        refl,
        file_local-finds tag handler (ref_at d r) (r.1.inner r.0).id s.locals refl,
      )
