-- ===== src/Examples/Sending/Laws.antt =====
-- The loop offers one and the same message until it is taken.
use strong_ipc.Prelude.{
  ℕ, zero, suc, ◌+◌, ◌-◌, ◌<◌, ◌^◌, ◌≡◌, refl, ap, ◌∙◌, false, Option, none, some, arith,
}
use strong_ipc.Io.{IoResult}
use strong_ipc.Message.{Ref, Message, from_data, add_ref}
use strong_ipc.Error.{TrySendError}
use strong_ipc.Wire.Send.{Sockets}
use strong_ipc.Channel.{Mpsc}
use strong_ipc.Outbox.{Outbox}
use strong_ipc.Outbox.View.{pending_of}
use strong_ipc.Capability.Gate.{is_too_large}
use strong_ipc.Capability.Send.{done, failed, Result, try_send}
use strong_ipc.Capability.Send.Laws.{Outcome, try_send-Outcome}
use strong_ipc.Examples.Ordering.{sequenced, tag_of, payload_len, u64}
use strong_ipc.Examples.Ordering.Sequenced.{length-repeat_byte}
use strong_ipc.Examples.Sending.{
  numbered, Ended, accepted, peer_closed, reached, after_try, send_loop,
}

-- The payload is under the limit, whatever its number.
numbered-fits : (seq : ℕ) (cap : Ref) → is_too_large (numbered seq cap) ≡ false
unfolding numbered sequenced from_data add_ref
numbered-fits seq cap = ground (arith, length-repeat_byte (payload_len - 4) (tag_of seq))

small_count : (c : ℕ) → c + 1 < 2 ^ 64 → u64 (c + 1) ≡ c + 1
small_count c h = omega arith

module _ (s : Sockets) (k : Mpsc Message) (register : s.World → IoResult Unit × s.World) where
  open s use {World}

  module _ (yield_now : Option (Outbox k) → World → Option (Outbox k) × World)
      (few : (o : Option (Outbox k)) (w : World)
        → pending_of k o < 2 ^ 64
        → pending_of k (yield_now o w).0 < 2 ^ 64)
      (fd : ℕ) (m : Message) where
    -- `n` refusals of `m` in a row, each of them followed by a turn of the other tasks
    pub data Refusals : ℕ → Option (Outbox k) → World → Option (Outbox k) → World → Type 0 where
      none_yet : {o : Option (Outbox k)} {w : World} → Refusals 0 o w o w
      one_more :
          {n : ℕ} {o o₁ o' : Option (Outbox k)} {w w₁ w' : World}
          → try_send s k register fd m o w ≡ (failed (TrySendError.full m), o₁, w₁)
          → Refusals n (yield_now o₁ w₁).0 (yield_now o₁ w₁).1 o' w'
          → Refusals (suc n) o w o' w'

    -- The `n + 1`st try gave `r`, those before it were refusals.
    pub Tried : ℕ → Option (Outbox k) → World → Result s k register → Type 0
    Tried n o w r =
        (o₁ : Option (Outbox k)) × (w₁ : World) × Refusals n o w o₁ w₁
        × (try_send s k register fd m o₁ w₁ ≡ r)

    pub Ends : ℕ → ℕ → Option (Outbox k) → World → Option (Ended s k register) → Type 0
    Ends fuel queue_full o w none =
        (o₁ : Option (Outbox k)) × (w₁ : World) × Refusals fuel o w o₁ w₁
    Ends fuel queue_full o w (some (accepted c o' w')) =
        (n : ℕ) × (n < fuel) × (c ≡ queue_full + n) × Tried n o w (done, o', w')
    Ends fuel queue_full o w (some peer_closed) =
        (n : ℕ) × (o' : Option (Outbox k)) × (w' : World) × Tried n o w
          (failed (TrySendError.closed m), o', w')
    Ends fuel queue_full o w (some reached) = ⊥

    Ends-later :
        (fuel c : ℕ) (o o₁ : Option (Outbox k)) (w w₁ : World) (r : Option (Ended s k register))
        → try_send s k register fd m o w ≡ (failed (TrySendError.full m), o₁, w₁)
        → Ends fuel (c + 1) (yield_now o₁ w₁).0 (yield_now o₁ w₁).1 r
        → Ends (suc fuel) c o w r
    unfolding Ends Tried
    Ends-later fuel c o o₁ w w₁ none e (a, b, r) = (a, b, one_more e r)
    Ends-later fuel c o o₁ w w₁ (some (accepted x a b)) e (n, lt, q, (p, u, r, t)) =
        (suc n, omega arith, omega arith, (p, u, one_more e r, t))
    Ends-later fuel c o o₁ w w₁ (some peer_closed) e (n, a, b, (p, u, r, t)) =
        (suc n, a, b, (p, u, one_more e r, t))
    Ends-later fuel c o o₁ w w₁ (some reached) e h = h

    send_loop-Ends :
        (fuel c : ℕ) (o : Option (Outbox k)) (w : World)
        → is_too_large m ≡ false
        → pending_of k o < 2 ^ 64
        → c + fuel < 2 ^ 64
        → Ends fuel c o w (send_loop s k register yield_now fuel fd m c o w)
    unfolding send_loop Ends Tried
    send_loop-Ends zero c o w small h lt = (o, w, none_yet)
    send_loop-Ends (suc fuel) c o w small h lt =
        go
          (λ o₁ w₁ g.
            send_loop-Ends fuel (c + 1) (yield_now o₁ w₁).0 (yield_now o₁ w₁).1 small (few o₁ w₁ g)
              (omega arith))
          (try_send s k register fd m o w) refl (try_send-Outcome s k register fd m o w h)
      where
        go :
            ((o₁ : Option (Outbox k)) (w₁ : World)
              → pending_of k o₁ < 2 ^ 64
              → Ends fuel (c + 1) (yield_now o₁ w₁).0 (yield_now o₁ w₁).1 (
                  send_loop s k register yield_now fuel fd m
                    (c + 1)
                    (yield_now o₁ w₁).0
                    (yield_now o₁ w₁).1))
            → (r : Result s k register) → try_send s k register fd m o w ≡ r
            → Outcome s k register fd m o w r
            → Ends
                (suc fuel)
                c
                o
                w
                (after_try s k register yield_now (send_loop s k register yield_now fuel fd) c r)
        go rest (done, o₁, w₁) e v = (0, omega arith, omega arith, (o, w, none_yet, e))
        go rest (failed (TrySendError.full x), o₁, w₁) e v = rw v.0 (
            rw (small_count c (omega arith)) (
              Ends-later fuel c o o₁ w w₁ _
                (e ∙ ap (λ y. (failed (TrySendError.full y), o₁, w₁)) v.0)
                (rest o₁ w₁ (ground (arith, v)))))
        go rest (failed (TrySendError.closed x), o₁, w₁) e v = (
          0,
          o₁,
          w₁,
          (o, w, none_yet, e ∙ ap (λ y. (failed (TrySendError.closed y), o₁, w₁)) v.0),
        )
        go rest (failed (TrySendError.too_large x), o₁, w₁) e v = absurd (ground (arith, v))

  -- Where the turns of the other tasks keep the counter below 2 ^ 64, message `seq` with its capability is
  -- offered until it is taken: if the loop ends with `Ok`, its last try was taken, the message that
  -- the tries before it gave back is the same, and their number is what it counted; it panics only where
  -- a try says that the peer is gone; the arm for too large a message is not reached; and while the
  -- loop does not end, every try has been refused for want of room.
  pub numbered-Ends :
      (yield_now : Option (Outbox k) → World → Option (Outbox k) × World)
      (few : (o : Option (Outbox k)) (w : World)
        → pending_of k o < 2 ^ 64
        → pending_of k (yield_now o w).0 < 2 ^ 64)
      (fd seq fuel queue_full : ℕ) (cap : Ref) (o : Option (Outbox k)) (w : World)
      → pending_of k o < 2 ^ 64
      → queue_full + fuel < 2 ^ 64
      → Ends yield_now few fd
          (numbered seq cap)
          fuel
          queue_full
          o
          w
          (send_loop s k register yield_now fuel fd (numbered seq cap) queue_full o w)
  numbered-Ends yield_now few fd seq fuel queue_full cap o w h lt =
      send_loop-Ends yield_now few fd (numbered seq cap) fuel queue_full o w (numbered-fits seq cap)
        h lt
