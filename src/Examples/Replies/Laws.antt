-- ===== src/Examples/Replies/Laws.antt =====
-- What comes back to the clients, and what the servers that answer once leave open.
use strong_ipc.Prelude.{
  ℕ, ◌≤◌, ◌<◌, ◌^◌, ◌≡◌, sym, ap, ◌∙◌, false, Option, none, some, List, ◌∷◌, length, All,
  All-weaken, arith,
}
use strong_ipc.Message.{SocketId, from_data}
use strong_ipc.Shards.{DashMap}
use strong_ipc.Capability.Registry.{Reg, from_fd}
use strong_ipc.Capability.Send.{done}
use strong_ipc.Binding.Accept.{close_all}
use strong_ipc.Examples.Slots.{header_len, get, put}
use strong_ipc.Examples.Slots.Laws.{get-put}
use strong_ipc.Examples.Echo.{Echo, Action, quit, answer, reply_ref, let_go}
use strong_ipc.Examples.Echo.Laws.{close_all-closed}
use strong_ipc.Examples.Variants.{starts_with, handle_stamped}
use strong_ipc.Examples.Variants.Laws.{handle_stamped_lem}
use strong_ipc.Examples.Replies.{reply_stamps, echo_once}

reply_stamps_lem :
    (t3 a b c : ℕ) (out : List ℕ)
    → header_len ≤ length out
    → get out 0 ≡ some a
    → get out 1 ≡ some b
    → get out 2 ≡ some c
    → reply_stamps t3 out ≡ some (some (a, b, c, t3))
unfolding reply_stamps
reply_stamps_lem t3 a b c out long p q r = ground arith

module _ (d : DashMap ℕ) where
  -- A round trip of timeline.rs: for a payload with room for the header, into which the client has put a
  -- sequence number, and which is not taken for the order to quit, the server does not panic; what it
  -- answers, where it has a capability to answer on, has the payload's length, and the client's reply
  -- handler reads the sequence number, the two stamps and its own from it.
  pub round_trip :
      (stat : ℕ → Option SocketId) (buf bytes fds : List ℕ) (seq t1 t2 t3 : ℕ) (s : Echo d)
      → header_len ≤ length buf
      → seq < 2 ^ 64
      → t1 < 2 ^ 64
      → t2 < 2 ^ 64
      → put buf 0 seq ≡ some bytes
      → starts_with quit bytes ≡ false
      → (out : List ℕ) × (handle_stamped d stat t1 t2 bytes fds s
          ≡ some (answer d (from_data out) (reply_ref d stat fds s)))
        × (length out ≡ length buf)
        × (reply_stamps t3 out ≡ some (some (seq, t1, t2, t3)))
  round_trip stat buf bytes fds seq t1 t2 t3 s long ls l1 l2 p going =
      let (put_in, q, same, has_seq, others) = get-put buf 0 seq (omega arith) ls in
      let e : put_in ≡ bytes = cc in
      let long_too : header_len ≤ length bytes = rw (← e) (omega (arith, same)) in
      let (out, ran, len, zero_, one, two) =
        handle_stamped_lem d stat t1 t2 bytes fds s going long_too l1 l2 in
      (
        out,
        ran,
        len ∙ (ap length (sym e) ∙ same),
        reply_stamps_lem t3 seq t1 t2 out (omega (arith, len))
            (zero_ ∙ (ap (λ b. get b 0) (sym e) ∙ has_seq)) one two,
      )

  from_fd-none :
      (stat : Option SocketId) (fd g : ℕ) (s : Reg d)
      → s.table g ≡ none
      → (from_fd d stat fd s).1.table g ≡ none
  unfolding from_fd
  from_fd-none none fd g s e = ground arith
  from_fd-none (some i) fd g s e = ground arith

  let_go-none : (a g : ℕ) (s : Reg d) → s.table g ≡ none → (let_go d a s).table g ≡ none
  unfolding let_go
  let_go-none a g s e = ground arith

  -- When `echo_once` has returned, every descriptor of the message but the first is closed, wherever the
  -- reply went.
  pub echo_once-closes :
      (stat : ℕ → Option SocketId) (bytes rest : List ℕ) (fd : ℕ) (s : Reg d) (r : Action × Reg d)
      → echo_once d stat done bytes (fd ∷ rest) s ≡ some r
      → All (λ g. r.1.table g ≡ none) rest
  unfolding echo_once
  echo_once-closes stat bytes rest fd s r e =
      All-weaken (λ g. (close_all d rest s).table g ≡ none) (λ g. r.1.table g ≡ none)
        (λ g q.
          sym (ap (λ o. unwrap_table o g) e)
          ∙ let_go-none (from_fd d (stat fd) fd (close_all d rest s)).0 g
              (from_fd d (stat fd) fd (close_all d rest s)).1
              (from_fd-none (stat fd) fd g (close_all d rest s) q))
        rest (close_all-closed d rest s)
    where
      unwrap_table : Option (Action × Reg d) → ℕ → Option ℕ
      unwrap_table none g = none
      unwrap_table (some r) g = r.1.table g
