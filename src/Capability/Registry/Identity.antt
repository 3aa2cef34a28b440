-- ===== src/Capability/Registry/Identity.antt =====
-- A capability is recognised: one `Ref` for one socket.
use strong_ipc.Prelude.{
  ℕ, ◌<◌, ◌≡◌, ◌≢◌, ◌↔◌, refl, sym, ap, ◌∙◌, ◌==◌, true, Option, none, some, [], ◌∷◌, inl, inr,
  Bool-cases, Option-cases, ltb, arith,
}
use strong_ipc.Io.{text, number}
use strong_ipc.Message.{SocketId}
use strong_ipc.Shards.{DashMap}
use strong_ipc.Capability.Registry.{
  filed, closed, Reg, from_fd, is_same, hit_or_file, identity, ref_eq, hash_ref, debug_ref,
}
use strong_ipc.Capability.Registry.Steps.{IsUnowned, StatOf, Reach}
use strong_ipc.Capability.Registry.Invariant.{Inv, Reach-Inv}

module _ (d : DashMap ℕ) (ident : ℕ → SocketId) {s : Reg d} (r : Reach d ident s) where
  open d use {get}

  abbrev v : Inv d ident s
  v = Reach-Inv d ident r

  -- In every reachable state of the registry, two live `Ref`s that the registry could key are the
  -- same exactly when their descriptors name one socket.
  pub is_same_iff_socket :
      (a b : ℕ) (i j : SocketId)
      → 0 < (s.inner a).strong
      → 0 < (s.inner b).strong
      → (s.inner a).id ≡ some i
      → (s.inner b).id ≡ some j
      → (is_same a b ≡ true) ↔ (s.table (s.inner a).fd ≡ s.table (s.inner b).fd)
  unfolding is_same
  is_same_iff_socket a b i j la lb ia jb =
      let (x, ex, hx) = v.owned a (v.counts a la).0 (λ q. ground (arith, v.counts a)) in
      let (y, ey, hy) = v.owned b (v.counts b lb).0 (λ q. ground (arith, v.counts b)) in
      (λ q. ground arith, λ q. ground (arith, v.live a i, v.live b j, hx i ia, hy j jb))

  abbrev pub Sends : ℕ → ℕ × Reg d → Type 0
  Sends x r = (0 < (r.1.inner r.0).strong) × (r.1.table (r.1.inner r.0).fd ≡ some x)

  -- In every reachable state of the registry, what `from_fd` returns for a descriptor that no `Ref` owns
  -- is alive and sends to the socket of the descriptor that it was given, whether
  -- it is new or was found, and whatever inode numbers were used before.
  pub from_fd-Sends :
      (fd x : ℕ) (stat : Option SocketId)
      → s.table fd ≡ some x
      → IsUnowned d ident s fd
      → StatOf d ident x stat
      → Sends x (from_fd d stat fd s)
  unfolding from_fd
  from_fd-Sends fd x none e u h = (ground arith, ground arith)
  from_fd-Sends fd x (some i) e u h = go (get s.refs i) refl
    where
      found :
          (a y : ℕ)
          → get s.refs i ≡ some a
          → s.table (s.inner a).fd ≡ some y
          → ((j : SocketId) → (s.inner a).id ≡ some j → ident y ≡ j)
          → y ≡ x
      found a y q f g = v.sockets (s.inner a).fd fd y x f e (g i (v.entries i a q).1 ∙ sym h)

      go : (o : Option ℕ) → get s.refs i ≡ o → Sends x (hit_or_file d s fd i o)
      go none q = (ground arith, ground arith)
      go (some a) q = elim (Bool-cases (ltb 0 (s.inner a).strong)) [
        | inl alive ↦
            let lt = (v.entries i a q).0 in
            let open_ : (s.inner a).phase ≢ closed = λ z. ground (arith, v.entries i a q) in
            let (y, f, g) = v.owned a lt open_ in
            rw alive (ground arith, ground (arith, found a y q f g, u a lt open_))
        | inr dead ↦ rw dead (ground arith, ground arith)
      ]

  -- In every reachable state of the registry, a second descriptor for the socket of a live, keyed
  -- `Ref` gives that `Ref` back.
  pub from_fd-recognises :
      (a fd x : ℕ) (i : SocketId)
      → 0 < (s.inner a).strong
      → (s.inner a).id ≡ some i
      → s.table (s.inner a).fd ≡ some x
      → s.table fd ≡ some x
      → (from_fd d (some (ident x)) fd s).0 ≡ a
  unfolding from_fd
  from_fd-recognises a fd x i la ia ea e =
      let (y, ey, hy) = v.owned a (v.counts a la).0 (λ q. ground (arith, v.counts a)) in
      ground (arith, v.live a i, hy i ia)

  -- In every reachable state, every entry of the registry is for an inner whose `Drop` body has
  -- not run, and its key is the identity of the open socket that this inner's descriptor names; so
  -- once all bodies have run it is empty.
  pub entries_open :
      (i : SocketId)
      → ((a : ℕ)
          → get s.refs i ≡ some a
          → ((s.inner a).phase ≡ filed)
            × ((x : ℕ) × (s.table (s.inner a).fd ≡ some x) × (ident x ≡ i)))
        × (((a : ℕ) → (s.inner a).phase ≢ filed) → get s.refs i ≡ none)
  entries_open i = (
    λ a q.
        let (lt, k, f) = v.entries i a q in
        let (x, e, h) = v.owned a lt (λ z. ground arith) in (f, (x, e, h i k)),
    λ h. elim (Option-cases (get s.refs i)) [
      | inl e ↦ e
      | inr (a, e) ↦ absurd (h a (v.entries i a e).2)
    ],
  )

-- Equal `Ref`s are those of one identity; they hash alike, whatever the hasher, and they print alike, as
-- no others do.
pub ref_eq-hash_ref :
    {S : Type 0} (write : ℕ → S → S) (a b : ℕ) (state : S)
    → ((ref_eq a b ≡ true) ↔ (identity a ≡ identity b))
      × (ref_eq a b ≡ true → hash_ref write a state ≡ hash_ref write b state)
      × ((ref_eq a b ≡ true) ↔ (debug_ref a ≡ debug_ref b))
unfolding ref_eq hash_ref identity debug_ref
ref_eq-hash_ref write a b state = (
  (λ e. ground arith, λ e. ground arith),
  λ e. ap (λ c. write c state) (==_eq a b e),
  (λ e. ap (λ c. text "Ref(" ∷ number c ∷ text ")" ∷ []) (==_eq a b e), λ e. ground arith),
)
  where
    ==_eq : (a b : ℕ) → (a == b) ≡ true → a ≡ b
    ==_eq a b e = ground arith
