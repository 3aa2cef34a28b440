-- ===== src/Capability/Send/Laws.antt =====
-- Every outcome of `try_send`, and what it leaves behind.
use strong_ipc.Prelude.{
  ℕ, ◌<◌, ◌^◌, ◌≡◌, ◌⊎◌, inl, inr, refl, sym, true, false, Bool-cases, Option, none, some, [], ◌∷◌,
  ◌++◌, arith, length,
}
use strong_ipc.Io.{IoError, IoResult, ok, err}
use strong_ipc.Message.{Message, fds}
use strong_ipc.Error.{TrySendError}
use strong_ipc.Wire.Sizes.{max_fds, depth}
use strong_ipc.Wire.Send.{Sockets, send_now}
use strong_ipc.Wire.Reactive.{is_would_block}
use strong_ipc.Channel.{Mpsc, Tried, has_room}
use strong_ipc.Outbox.{Outbox, build, push, settle, fetch_add}
use strong_ipc.Outbox.View.{lane_of, queue_of, pending_of}
use strong_ipc.Capability.Gate.{is_too_large, inline_ok}
use strong_ipc.Capability.Send.{
  done, failed, Result, settled, build_then_push, queue_up, after_inline, try_send,
}

module _ (s : Sockets) (k : Mpsc Message) (register : s.World → IoResult Unit × s.World) where
  open s use {World}
  open k use {try_send_law, view-channel}

  -- The queue, and the counter, stay as they were.
  abbrev pub Same : Option (Outbox k) → Option (Outbox k) → Type 0
  Same o o' = (queue_of k o' ≡ queue_of k o) × (pending_of k o' ≡ pending_of k o)

  -- The message went to the end of the queue, and was counted.
  abbrev pub Queued : Message → Option (Outbox k) → Option (Outbox k) → Type 0
  Queued m o o' =
      (queue_of k o' ≡ queue_of k o ++ (m ∷ [])) × (pending_of k o' ≡ fetch_add (pending_of k o))

  -- The fast path was shut, or its `sendmsg` would have blocked; `v` is the state after that.
  abbrev pub Diverted : ℕ → Message → Option (Outbox k) → World → World → Type 0
  Diverted fd m o w v =
      ((inline_ok k m o ≡ false) × (v ≡ w))
      ⊎ ((e : IoError) × (inline_ok k m o ≡ true)
          × (send_now s fd m w ≡ (err e, v))
          × (is_would_block e.kind ≡ true))

  -- The outbox was there, or it was built.
  abbrev pub Built : Option (Outbox k) → World → World → Type 0
  Built none v w' = register v ≡ (ok tt, w')
  Built (some b) v w' = w' ≡ v

  abbrev pub Reached : ℕ → Message → Option (Outbox k) → World → World → Type 0
  Reached fd m o w w' = (v : World) × Diverted fd m o w v × Built o v w'

  -- The fast path was open, and its `sendmsg` failed for another reason.
  abbrev pub Broken : ℕ → Message → Option (Outbox k) → World → World → Type 0
  Broken fd m o w w' =
      (e : IoError) × (inline_ok k m o ≡ true)
      × (send_now s fd m w ≡ (err e, w'))
      × (is_would_block e.kind ≡ false)

  -- There was no outbox, and none could be built.
  abbrev pub Unbuilt : ℕ → Message → Option (Outbox k) → World → Option (Outbox k) → World → Type 0
  Unbuilt fd m o w o' w' =
      (o ≡ none)
      × (o' ≡ none)
      × (v : World) × (e : IoError) × Diverted fd m o w v
      × (register v ≡ (err e, w'))

  -- The reasons for `Closed`
  abbrev pub Cut : ℕ → Message → Option (Outbox k) → World → Option (Outbox k) → World → Type 0
  Cut fd m o w o' w' =
      (Broken fd m o w w' × (o' ≡ o))
      ⊎ Unbuilt fd m o w o' w'
      ⊎ (Reached fd m o w w' × ((lane_of k o').is_closed ≡ true))

  abbrev pub Outcome : ℕ → Message → Option (Outbox k) → World → Result s k register → Type 0
  Outcome fd m o w (done, o', w') =
      (is_too_large m ≡ false)
      × (((send_now s fd m w ≡ (ok tt, w')) × (o' ≡ o) × (inline_ok k m o ≡ true))
          ⊎ (Reached fd m o w w' × Queued m o o'))
  Outcome fd m o w (failed (TrySendError.too_large x), o', w') =
      (x ≡ m) × (is_too_large m ≡ true) × (o' ≡ o) × (w' ≡ w)
  Outcome fd m o w (failed (TrySendError.full x), o', w') =
      (x ≡ m)
      × (is_too_large m ≡ false)
      × Same o o'
      × ((lane_of k o').is_closed ≡ false)
      × (has_room (lane_of k o') ≡ false)
      × Reached fd m o w w'
  Outcome fd m o w (failed (TrySendError.closed x), o', w') =
      (x ≡ m) × (is_too_large m ≡ false) × Same o o' × Cut fd m o w o' w'

  module _ (fd : ℕ) (m : Message) (small : is_too_large m ≡ false) where
    settled-Outcome :
        (w w' : World) (o : Option (Outbox k)) (b : Outbox k)
        → lane_of k o ≡ k.view b.sender
        → pending_of k o ≡ b.pending
        → b.pending < 2 ^ 64
        → Reached fd m o w w'
        → Outcome fd m o w (settled s k register (push k m b) w')
    unfolding push
    settled-Outcome w w' o b e p h away =
        go (k.try_send m b.sender).0 (k.try_send m b.sender).1 refl refl
      where
        go :
            (r : Tried Message) (c : k.Chan)
            → (k.try_send m b.sender).0 ≡ r
            → (k.try_send m b.sender).1 ≡ c
            → Outcome fd m o w (
                settled s k register
                  (settle k (r, record { sender = c; pending = fetch_add b.pending }))
                  w')
        go Tried.sent c x y = (small, inr (away, ground (arith, try_send_law m b.sender)))
        go (Tried.full z) c x y = (
          ground (arith, try_send_law m b.sender),
          small,
          (ground (arith, try_send_law m b.sender), ground (arith, try_send_law m b.sender)),
          ground (arith, try_send_law m b.sender),
          ground (arith, try_send_law m b.sender),
          away,
        )
        go (Tried.closed z) c x y = (
          ground (arith, try_send_law m b.sender),
          small,
          (ground (arith, try_send_law m b.sender), ground (arith, try_send_law m b.sender)),
          inr (inr (away, ground (arith, try_send_law m b.sender))),
        )

    queue_up-Outcome :
        (w w' : World) (o : Option (Outbox k))
        → pending_of k o < 2 ^ 64
        → Diverted fd m o w w'
        → Outcome fd m o w (queue_up s k register m o w')
    unfolding queue_up
    queue_up-Outcome w w' (some b) h away =
        settled-Outcome w w' (some b) b refl refl h (w', away, refl)
    queue_up-Outcome w w' none h away = built (register w') refl
      where
        built :
            (r : IoResult Unit × World)
            → register w' ≡ r
            → Outcome fd m none w (build_then_push s k register m r)
        built (err e, u) q = (refl, small, (refl, refl), inr (inl (refl, refl, w', e, away, q)))
        built (ok _, u) q =
            settled-Outcome w u none (build k) (sym (view-channel depth)) refl (omega arith)
              (w', away, q)

    inline-Outcome :
        (w : World) (o : Option (Outbox k))
        → pending_of k o < 2 ^ 64
        → inline_ok k m o ≡ true
        → (r : IoResult Unit × World) → send_now s fd m w ≡ r
        → Outcome fd m o w (after_inline s k register m o r)
    inline-Outcome w o h i (ok _, u) e = (small, inl (e, refl, i))
    inline-Outcome w o h i (err x, u) e = elim (Bool-cases (is_would_block x.kind)) [
      | inl b ↦ rw b (queue_up-Outcome w u o h (inr (x, i, e, b)))
      | inr b ↦ rw b (refl, small, (refl, refl), inl ((x, i, e, b), refl))
    ]

  -- With a counter below 2 ^ 64, every call of `try_send` on a runtime ends in one of these ways. `Ok`:
  -- the payload is within the limit, and either `sendmsg` took the message at once, over a fast path
  -- that was open, or the fast path was shut or would have blocked, and the message is the last of the
  -- outbox's queue and is counted. `TooLarge`: the payload is over the limit, and nothing was touched.
  -- `Full`: the fast path was shut or would have blocked, the channel is open and has no room, and queue
  -- and counter are as before. `Closed`: queue and counter are as before, and either the fast path was open
  -- and `sendmsg` failed with an error other than would-block, or the fast path was shut or would have
  -- blocked, and the channel is closed or there was no outbox and none could be built. Every error gives
  -- back the message itself, and the state of kernel and runtime is what the one `sendmsg`, if the fast
  -- path was open, and then the registration of a new outbox, if there was none and one was needed,
  -- have left.
  pub try_send-Outcome :
      (fd : ℕ) (m : Message) (o : Option (Outbox k)) (w : World)
      → pending_of k o < 2 ^ 64
      → Outcome fd m o w (try_send s k register fd m o w)
  unfolding try_send
  try_send-Outcome fd m o w h = elim (Bool-cases (is_too_large m)) [
    | inl big ↦ rw big (refl, big, refl, refl)
    | inr small ↦ rw small (elim (Bool-cases (inline_ok k m o)) [
      | inl i ↦ rw i (inline-Outcome fd m small w o h i (send_now s fd m w) refl)
      | inr q ↦ rw q (queue_up-Outcome fd m small w w o h (inl (q, refl)))
    ])
  ]

  -- A message with more descriptors than one `SCM_RIGHTS` block can carry is accepted with `Ok` while
  -- the outbox has room: it is queued, and no `sendmsg` is tried, whatever the socket would say.
  pub try_send-oversized :
      (fd : ℕ) (m : Message) (b : Outbox k) (w : World)
      → is_too_large m ≡ false
      → max_fds < length (fds m)
      → (k.view b.sender).is_closed ≡ false
      → has_room (k.view b.sender) ≡ true
      → (b' : Outbox k) × (try_send s k register fd m (some b) w ≡ (done, some b', w))
        × (queue_of k (some b') ≡ queue_of k (some b) ++ (m ∷ []))
  unfolding try_send
  try_send-oversized fd m b w small many alive room = (
    record { sender = (k.try_send m b.sender).1; pending = fetch_add b.pending },
    ground (arith, try_send_law m b.sender),
    ground (arith, try_send_law m b.sender),
  )
