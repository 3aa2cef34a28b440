-- ===== src/Local/Laws.antt =====
-- What a lookup finds, and what a late unfile takes out.
use strong_ipc.Prelude.{
  ℕ, ◌+◌, ◌<◌, ◌≡◌, ◌≢◌, refl, Option, none, some, inl, inr, Bool-cases, ltb, ltb→lt, ◌==◌, arith,
}
use strong_ipc.Message.{SocketId, Ref}
use strong_ipc.Shards.{DashMap}
use strong_ipc.Local.{
  LocalEntry, Locals, file, drop_entry, local_handler, reach_handler, ref_local_handler,
}

module _ (d : DashMap ℕ) where
  open d use {get, get-insert, get-remove_if}

  -- A handler comes back only with one more strong reference to it, and no other count changes; with
  -- none, no count changes.
  abbrev pub Finds : ℕ → SocketId → Locals d → Option ℕ × Locals d → Type 0
  Finds tag id s (none, t) = t ≡ s
  Finds tag id s (some w, t) =
      (get s.map id ≡ some w)
      × (0 < (s.cell w).strong)
      × ((s.cell w).tag ≡ tag)
      × ((t.cell w).strong ≡ (s.cell w).strong + 1)
      × ((u : ℕ) → u ≢ w → t.cell u ≡ s.cell u)

  -- `local_handler` returns a handler only if it is filed under that identity, alive, and of the type
  -- asked for; it then holds one more reference to it. Otherwise nothing has changed.
  pub local_handler-Finds :
      (tag : ℕ) (id : SocketId) (s : Locals d) → Finds tag id s (local_handler d tag id s)
  unfolding local_handler
  local_handler-Finds tag id s = go (get s.map id) refl
    where
      go : (o : Option ℕ) → get s.map id ≡ o → Finds tag id s (reach_handler d tag s o)
      go none e = refl
      go (some w) e = elim (Bool-cases (ltb 0 (s.cell w).strong)) [
        | inr dead ↦ rw dead refl
        | inl alive ↦ rw alive (elim (Bool-cases ((s.cell w).tag == tag)) [
          | inr other ↦ rw other refl
          | inl same ↦
              rw same (e, ltb→lt _ _ alive, ground arith, ground arith, λ u ne. ground arith)
        ])
      ]

  -- A `Ref` that leads to a node whose handler is alive and of the type asked for reaches it, from the
  -- moment when the node's entry is filed; a `Ref` to another socket finds what it found before.
  pub file-local_handler :
      (tag : ℕ) (r : Ref) (id : SocketId) (h : ℕ) (s : Locals d)
      → r.id ≡ some id
      → 0 < (s.cell h).strong
      → (s.cell h).tag ≡ tag
      → ((ref_local_handler d tag r (file d id h s).1).0 ≡ some h)
        × ((j : SocketId)
            → id ≢ j
            → (local_handler d tag j (file d id h s).1).0 ≡ (local_handler d tag j s).0)
  unfolding ref_local_handler file
  file-local_handler tag r id h s e alive t = (
    ground (arith, get-insert id h s.map id),
    λ j ne. ground (arith, get-insert id h s.map j, ne),
  )

  -- A late drop of an entry takes out its own filing, and nothing that another handler has filed
  -- since, under the same identity or another.
  pub drop_entry-get :
      (e : LocalEntry) (s : Locals d)
      → (get s.map e.id ≡ some e.filed → get (drop_entry d e s).map e.id ≡ none)
        × ((j : SocketId) (w : ℕ)
            → get s.map j ≡ some w
            → w ≢ e.filed
            → get (drop_entry d e s).map j ≡ some w)
  unfolding drop_entry
  drop_entry-get e s = (
    λ q. ground (arith, get-remove_if e.id (λ w. w == e.filed) s.map e.id),
    λ j w q ne. ground (arith, get-remove_if e.id (λ w. w == e.filed) s.map j),
  )

  -- Where one handler serves two nodes, and the second is filed under the first one's reissued identity
  -- before the first one's entry is dropped, that drop takes the second's entry out: the guard compares
  -- handlers, not filings.
  pub late_drop_shared :
      (id : SocketId) (h : ℕ) (s : Locals d)
      → let (first, s₁) = file d id h s in
        let (second, s₂) = file d id h s₁ in
        (get s₂.map second.id ≡ some h) × (get (drop_entry d first s₂).map second.id ≡ none)
  unfolding file drop_entry
  late_drop_shared id h s = (
    ground (arith, get-insert id h (d.insert id h s.map) id),
    ground (
      arith,
      get-remove_if id (λ w. w == h) (d.insert id h (d.insert id h s.map)) id,
      get-insert id h (d.insert id h s.map) id,
    ),
  )
