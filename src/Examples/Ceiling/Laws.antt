-- ===== src/Examples/Ceiling/Laws.antt =====
-- What the loop over the sizes reports, from `try_send` to the answer.
use strong_ipc.Prelude.{
  ℕ, zero, suc, ◌≤◌, ◌<◌, ◌^◌, ◌≡◌, ◌≢◌, ◌⊎◌, ◌∙◌, ap, sym, inl, inr, refl, true, false, Option,
  some, List, [], ◌∷◌, length, ltb, arith,
}
use strong_ipc.Io.{IoResult}
use strong_ipc.Message.{SocketId, Ref, Message, from_data, payload}
use strong_ipc.Error.{TrySendError, try_into_message}
use strong_ipc.Wire.Sizes.{max_message_size}
use strong_ipc.Wire.Send.{Sockets}
use strong_ipc.Channel.{Mpsc}
use strong_ipc.Outbox.{Outbox}
use strong_ipc.Outbox.View.{pending_of}
use strong_ipc.Capability.Gate.{is_too_large}
use strong_ipc.Capability.Send.{done, failed, Result, try_send}
use strong_ipc.Capability.Send.Laws.{Outcome, try_send-Outcome}
use strong_ipc.Node.{Datagram, Buffers}
use strong_ipc.Node.Laws.{whole, recv_loop-accepted}
use strong_ipc.Shards.{DashMap}
use strong_ipc.Capability.Registry.Steps.{Reach, IsUnowned, StatOf}
use strong_ipc.Examples.Echo.{Echo, replies, handle, same_bytes, quit}
use strong_ipc.Examples.Echo.Laws.{Serves, handle-Serves}
use strong_ipc.Examples.Replies.{Tally, tally, client_message}
use strong_ipc.Examples.Ceiling.{
  Report, refused_at_send, send_failed, echoed_intact, filled, on_reply, on_send, probe, first_call,
  answer_of, counted, arrive, answered, reply_to,
}

pub length-filled : (n : ℕ) → length (filled n) ≡ n
length-filled zero = refl
length-filled (suc n) = omega (arith, length-filled n)

payload-client_message : (n : ℕ) (r : Ref) → payload (client_message (filled n) 1 r) ≡ filled n
unfolding client_message
payload-client_message n r = refl

module _ (kb : Buffers) (d : DashMap ℕ) (dress : Message → Datagram)
    (same : (m : Message) → (dress m).content ≡ payload m) where
  arrive-whole :
      (buf : List ℕ) (m : Message)
      → length buf ≡ max_message_size
      → is_too_large m ≡ false
      → payload m ≢ []
      → arrive kb d dress buf (some m) ≡ some (whole (dress m))
  arrive-whole buf m h small ne =
      ap first_call (recv_loop-accepted kb dress same buf h (m ∷ []) ((small, ne), tt))

  -- Where the handler answers with the message's bytes, their number comes back.
  reply_to-length :
      (server_buf client_buf : List ℕ) (stat : ℕ → Option SocketId) (st : Echo d) (t : Tally)
      (m : Message) (f : ℕ)
      → length server_buf ≡ max_message_size
      → length client_buf ≡ max_message_size
      → is_too_large m ≡ false
      → payload m ≢ []
      → (handle d stat (dress m).content (dress m).rights st).0
        ≡ replies f (from_data (dress m).content)
      → reply_to kb d dress server_buf client_buf stat st t m ≡ some (some (length (payload m)))
  unfolding reply_to from_data tally
  reply_to-length server_buf client_buf stat st t m f h h' small ne serves =
      let bytes = (dress m).content in
      let answer = from_data bytes in
      ap (λ c. counted t (arrive kb d dress client_buf (answered kb d dress stat st c)))
        (arrive-whole server_buf m h small ne)
      ∙ (ap (λ a. counted t (arrive kb d dress client_buf (answer_of a))) serves
          ∙ (ap (counted t) (
                arrive-whole client_buf answer h'
                  (ap (λ b. ltb max_message_size (length b)) (same m) ∙ small)
                  (λ e. ne (sym (same m) ∙ e)))
              ∙ ap (λ b. some (some (length b))) (same answer ∙ same m)))

not_quit : (n : ℕ) → 0 < n → same_bytes (filled n) quit ≡ false
not_quit zero h = absurd (omega arith)
not_quit (suc n) h = refl

not_empty : (n : ℕ) → 0 < n → filled n ≢ []
not_empty zero h e = absurd (omega arith)
not_empty (suc n) h e = absurd (ground arith)

fits : (m : Message) → is_too_large m ≡ false → length (payload m) ≤ max_message_size
fits m small = ground arith

exceeds : (m : Message) → is_too_large m ≡ true → max_message_size < length (payload m)
exceeds m big = ground arith

own : (n : ℕ) → on_reply n (some (some n)) ≡ echoed_intact
own n = ground arith

module _ (s : Sockets) (k : Mpsc Message) (register : s.World → IoResult Unit × s.World) where
  open s use {World}

  -- What a probe with `size` bytes reports: over the ceiling the message is refused with its length; up to
  -- the ceiling it is echoed intact, where `try_send` took it, or reported as not sent, with the error and
  -- for the reasons that `try_send` has.
  abbrev pub Probed : ℕ → ℕ → Message → Option (Outbox k) → World → Report → Type 0
  Probed fd size m o w r =
      ((max_message_size < size)
        × (r ≡ refused_at_send size)
        × (try_send s k register fd m o w ≡ (failed (TrySendError.too_large m), o, w)))
      ⊎ ((size ≤ max_message_size)
          × (((r ≡ echoed_intact)
                × ((o' : Option (Outbox k)) × (u : World) × (try_send s k register fd m o w
                      ≡ (done, o', u))))
              ⊎ ((e : TrySendError) × (o' : Option (Outbox k)) × (u : World) × (r ≡ send_failed e)
                  × (try_into_message e ≡ m)
                  × (try_send s k register fd m o w ≡ (failed e, o', u))
                  × Outcome s k register fd m o w (failed e, o', u))))

  -- Any reply to a message that was taken reports its own size.
  on_send-Probed :
      (fd size : ℕ) (m : Message) (o : Option (Outbox k)) (w : World) (reply : Option (Option ℕ))
      → length (payload m) ≡ size
      → (is_too_large m ≡ false → reply ≡ some (some size))
      → (r : Result s k register) → try_send s k register fd m o w ≡ r
      → Outcome s k register fd m o w r
      → Probed fd size m o w (on_send s k register size reply r)
  unfolding try_into_message
  on_send-Probed fd size m o w reply p h (done, o', w') q v =
      inr (omega (arith, p, fits m v.0), inl (ap (on_reply size) (h v.0) ∙ own size, (o', w', q)))
  on_send-Probed fd size m o w reply p h (failed (TrySendError.too_large x), o', w') q v = inl (
    omega (arith, p, exceeds m v.1),
    ap (λ y. refused_at_send (length (payload y))) v.0 ∙ ap refused_at_send p,
    ground arith,
  )
  on_send-Probed fd size m o w reply p h (failed (TrySendError.full x), o', w') q v =
      inr (omega (arith, p, fits m v.1), inr (TrySendError.full x, o', w', refl, v.0, q, v))
  on_send-Probed fd size m o w reply p h (failed (TrySendError.closed x), o', w') q v =
      inr (omega (arith, p, fits m v.1), inr (TrySendError.closed x, o', w', refl, v.0, q, v))

  module _ (kb : Buffers) (d : DashMap ℕ) (dress : Message → Datagram)
      (same : (m : Message) → (dress m).content ≡ payload m) (ident : ℕ → SocketId) (st : Echo d)
      (reach : Reach d ident st.reg) where
    -- For every size but zero, every state of the client's socket and outbox with a counter below 2 ^ 64,
    -- and a server in a reachable state of its registry, in which the capability that it has kept is live,
    -- and that gets the message's one descriptor as `g`: for a size over the ceiling `try_send` gives the
    -- message back untouched, and its length is reported. For any other size, if `try_send` takes the
    -- message, it is reported as echoed intact, and never as truncated, where the answer is what the
    -- receive loops and handlers of both sides make of the message; if not, the error is reported, the
    -- message is in it, and there was the reason for it that `Outcome` says: a full channel, or a socket
    -- that failed, a closed channel or an outbox that could not be built.
    pub probe-Probed :
        (fd size : ℕ) (r : Ref) (o : Option (Outbox k)) (w : World) (server_buf client_buf : List ℕ)
        (stat : ℕ → Option SocketId) (t : Tally) (g x : ℕ)
        → pending_of k o < 2 ^ 64
        → 0 < size
        → length server_buf ≡ max_message_size
        → length client_buf ≡ max_message_size
        → (dress (client_message (filled size) 1 r)).rights ≡ g ∷ []
        → st.reg.table g ≡ some x
        → IsUnowned d ident st.reg g
        → StatOf d ident x (stat g)
        → ((c : ℕ) → st.cached ≡ some c → 0 < (st.reg.inner c).strong)
        → let m = client_message (filled size) 1 r in
          Probed fd size m o w (
            probe s k register fd r size
              (reply_to kb d dress server_buf client_buf stat st t m)
              o
              w)
    unfolding probe
    probe-Probed fd size r o w server_buf client_buf stat t g x below pos h h' one open_ own_ id
          live =
        on_send-Probed fd size m o w (reply_to kb d dress server_buf client_buf stat st t m)
          (ap length bytes ∙ length-filled size)
          (λ small.
            reply_to-length kb d dress same server_buf client_buf stat st t m back h h' small
              (λ e. not_empty size pos (sym bytes ∙ e)) serves
            ∙ ap (λ n. some (some n)) (ap length bytes ∙ length-filled size))
          (try_send s k register fd m o w) refl (try_send-Outcome s k register fd m o w below)
      where
        m : Message
        m = client_message (filled size) 1 r

        bytes : payload m ≡ filled size
        bytes = payload-client_message size r

        served :
            Serves d ident st reach x
              (dress m).content
              []
              (handle d stat (dress m).content (g ∷ []) st)
        served =
            handle-Serves d ident st reach stat (dress m).content g x []
              (ap (λ b. same_bytes b quit) (same m ∙ bytes) ∙ not_quit size pos) open_ own_ id tt
              live

        back : ℕ
        back = ((handle d stat (dress m).content (g ∷ []) st).1.reg.inner served.0).fd

        serves :
            (handle d stat (dress m).content (dress m).rights st).0
            ≡ replies back (from_data (dress m).content)
        serves = ap (λ l. (handle d stat (dress m).content l st).0) one ∙ served.1
