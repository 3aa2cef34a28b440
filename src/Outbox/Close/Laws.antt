-- ===== src/Outbox/Close/Laws.antt =====
-- What a drain task still does after the last `Ref` is dropped.
use mathlib.Core.Path.{subst}
use strong_ipc.Prelude.{
  ℕ, zero, suc, ◌+◌, ◌<◌, ◌≤◌, ◌^◌, ◌≡◌, refl, sym, ap, ◌∙◌, true, Option, some, none, ◌⊎◌, inl,
  inr, List, [], ◌∷◌, length, arith,
}
use strong_ipc.Io.{IoResult, ok, err}
use strong_ipc.Channel.{Mpsc}
use strong_ipc.Outbox.{Outbox, release, take_next, drop_receiver}
use strong_ipc.Outbox.Close.{Drained, drain, after_send, after_take}

module _ {M W : Type 0} (k : Mpsc M) (send : M → W → Option (IoResult Unit) × W) where
  -- What the queue comes to, from a socket in the state `w`: one send for each message in its order, up
  -- to the first that fails or never comes to an end; then the result, how many messages were tried to
  -- the end, and the socket.
  pub data Delivery : List M → W → Option (IoResult Unit) → ℕ → W → Type 0 where
    all_sent : {w : W} → Delivery [] w (some (ok tt)) 0 w
    parked :
        {m : M} {q : List M} {w : W} → (send m w).0 ≡ none → Delivery (m ∷ q) w none 0 (send m w).1
    refused :
        {m : M} {q : List M} {w : W} {e : _}
        → (send m w).0 ≡ some (err e)
        → Delivery (m ∷ q) w (some (err e)) 1 (send m w).1
    went :
        {m : M} {q : List M} {w u : W} {r : Option (IoResult Unit)} {n : ℕ}
        → (send m w).0 ≡ some (ok tt)
        → Delivery q (send m w).1 r n u
        → Delivery (m ∷ q) w r (suc n) u

  pub record Delivers (fuel : ℕ) (q : List M) (o : Outbox k) (w : W) : Type 0 where
    pub last : Drained k send
    pub tried : ℕ
    pub ran : drain k send fuel o w ≡ some last
    pub sends : Delivery q w last.result tried last.socket
    pub counted : last.outbox.pending + tried ≡ o.pending
    pub shut : (last.result ≡ none) ⊎ ((k.view last.outbox.sender).is_closed ≡ true)

  -- One turn of the loop
  pub drain-taken :
      (n : ℕ) (o : Outbox k) (m : M) (q : List M) (w : W) (r : Option (IoResult Unit) × W)
      → (k.view o.sender).queued ≡ m ∷ q
      → send m w ≡ r
      → drain k send (suc n) o w ≡ after_send k send (drain k send n) (take_next k o).1 r
  unfolding drain take_next
  drain-taken n o m q w r e s =
      ap (λ x. after_take k send (drain k send n) (x, (take_next k o).1) w) some_left
      ∙ ap (after_send k send (drain k send n) (take_next k o).1) s
    where
      some_left : (k.recv o.sender).0 ≡ some m
      some_left = ground (arith, k.recv_law o.sender)

  pub drain-empty :
      (n : ℕ) (o : Outbox k) (w : W)
      → (k.view o.sender).queued ≡ []
      → drain k send (suc n) o w
        ≡ some (record {
          result = some (ok tt);
          outbox = drop_receiver k (take_next k o).1;
          socket = w;
        })
  unfolding drain take_next
  drain-empty n o w e =
      ap (λ r. after_take k send (drain k send n) (r, (take_next k o).1) w) none_left
    where
      none_left : (k.recv o.sender).0 ≡ none
      none_left = ground (arith, k.recv_law o.sender)

  -- With no `Ref` left, a drain task with a counter below 2 ^ 64 that is no less than the length of its
  -- queue sends the queued messages in their order. Either all of them go out, and it returns `Ok`; or a
  -- send fails, the first that does, and it returns that error; or a send never comes to an end, and it
  -- waits there for ever, all messages before that one sent. It has given back the count of each message
  -- whose send came to an end, and where it returns, the channel is closed.
  pub drain-Delivers :
      (q : List M) (fuel : ℕ) (o : Outbox k) (w : W)
      → length q < fuel
      → (k.view o.sender).queued ≡ q
      → length q ≤ o.pending
      → o.pending < 2 ^ 64
      → Delivers fuel q o w
  unfolding drain take_next release drop_receiver
  drain-Delivers q zero o w lt e le few = absurd (omega arith)
  drain-Delivers [] (suc fuel) o w lt e le few = record {
    last = record { result = some (ok tt); outbox = drop_receiver k (take_next k o).1; socket = w };
    tried = 0;
    ran = drain-empty fuel o w e;
    sends = all_sent;
    counted = ground arith;
    shut = inr (ground (arith, k.view-close (k.recv o.sender).1));
  }
  drain-Delivers (m ∷ q) (suc fuel) o w lt e le few =
      go
        (λ u.
          drain-Delivers q fuel (release k (take_next k o).1) u (omega arith)
            (ground (arith, k.recv_law o.sender)) (ground arith) (ground arith))
        (send m w) refl
    where
      o₁ : Outbox k
      o₁ = (take_next k o).1

      go :
          ((u : W) → Delivers fuel q (release k o₁) u)
          → (r : Option (IoResult Unit) × W) → send m w ≡ r
          → Delivers (suc fuel) (m ∷ q) o w
      go rest (none, u) s = record {
        last = record { result = none; outbox = o₁; socket = u };
        tried = 0;
        ran = drain-taken fuel o m q w (none, u) e s;
        sends =
            subst (λ v. Delivery (m ∷ q) w none 0 v) (ap (λ r. r.1) s) (parked (ap (λ r. r.0) s));
        counted = omega arith;
        shut = inl refl;
      }
      go rest (some (err x), u) s = record {
        last = record {
          result = some (err x);
          outbox = drop_receiver k (release k o₁);
          socket = u;
        };
        tried = 1;
        ran = drain-taken fuel o m q w (some (err x), u) e s;
        sends =
            subst (λ v. Delivery (m ∷ q) w (some (err x)) 1 v) (ap (λ r. r.1) s)
              (refused (ap (λ r. r.0) s));
        counted = ground arith;
        shut = inr (ground (arith, k.view-close o₁.sender));
      }
      go rest (some (ok a), u) s =
          let d = rest u in
          record {
            last = d.last;
            tried = suc d.tried;
            ran = drain-taken fuel o m q w (some (ok a), u) e s ∙ d.ran;
            sends = went (ap (λ r. r.0) s) (
                subst (λ v. Delivery q v d.last.result d.tried d.last.socket)
                  (sym (ap (λ r. r.1) s)) d.sends);
            counted = ground (arith, d.counted);
            shut = d.shut;
          }
