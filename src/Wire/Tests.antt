-- ===== src/Wire/Tests.antt =====
-- The theorems on the wire layer applied to small kernels.
use strong_ipc.Prelude.{
  ℕ, zero, suc, Bool, true, false, ◌≤◌, ◌<◌, ◌≡◌, refl, Option, none, some, List, [], ◌∷◌, arith,
  length, leb, if◌then◌else◌,
}
use strong_ipc.Io.{IoError, IoResult, ok, err, from_kind, would_block, invalid_input}
use strong_ipc.Message.{Message, SendFd, borrowed}
use strong_ipc.Wire.Limits.{Rlimit, Resource}
use strong_ipc.Wire.Send.{Sockets, send_now, flags_for_send}
use strong_ipc.Wire.Send.Laws.{send_now_lem}
use strong_ipc.Wire.Recv.{scm_rights, scm_credentials, unknown, RecvMsg}
use strong_ipc.Wire.Reactive.{retry}
use strong_ipc.Wire.Setup.{
  Kernel, add_open, remove_open, bind, connect, accept_now, and_then_reactive,
}
use strong_ipc.Wire.Setup.Laws.{Result, reactive-Result}
use strong_ipc.Wire.Hangup.{Ready}
use strong_ipc.Wire.Reactive.Laws.{Ends, Blocks, retry-Ends}

-- A kernel that refuses a limit above 100.
abbrev is_allowed : Option ℕ → IoResult Unit
is_allowed none = err (from_kind invalid_input)
is_allowed (some n) = if leb n 100 then ok tt else err (from_kind invalid_input)

abbrev set : Rlimit → Rlimit → IoResult Unit → IoResult Unit × Rlimit
set l p (ok u) = (ok u, l)
set l p (err e) = (err e, p)

abbrev kernel : Resource
kernel = record {
  Process = Rlimit;
  getrlimit = λ p. p;
  setrlimit = λ l p. set l p (is_allowed l.current);
  set_ok = λ l p. set_ok l p (is_allowed l.current);
  set_err = λ l p. set_err l p (is_allowed l.current);
}
  where
    set_ok : (l p : Rlimit) (r : IoResult Unit) → (set l p r).0 ≡ ok tt → (set l p r).1 ≡ l
    set_ok l p (ok _) h = refl
    set_ok l p (err e) h = ground arith

    set_err :
        (l p : Rlimit) (r : IoResult Unit) (e : IoError) → (set l p r).0 ≡ err e → (set l p r).1 ≡ p
    set_err l p (ok _) e h = ground arith
    set_err l p (err x) e h = refl

abbrev modest : Rlimit
modest = record { current = some 10; maximum = some 60 }

-- A socket that logs payloads; a control buffer is the list of its descriptors.
abbrev log : Sockets
log = record {
  World = List (List ℕ);
  Control = List ℕ;
  no_control = [];
  rights_of = λ c. c;
  space_rights = λ n. n;
  space_rights_credentials = λ n. n;
  push_rights = λ space l. if leb (length l) space then some l else none;
  sendmsg = λ fd bytes c f w. (ok tt, bytes ∷ w);
  rights_of_none = refl;
  space_le = λ m n h. h;
  push_fits = λ space l h. (l, ground arith, refl);
}

abbrev gift : Message
gift = record { data_bytes = 1 ∷ 2 ∷ []; fd_list = SendFd.owned 8 ∷ [] }

send_now_lem_example :
    (c : List ℕ) × (send_now log 3 gift [] ≡ log.sendmsg 3 (1 ∷ 2 ∷ []) c flags_for_send [])
    × (c ≡ borrowed gift)
    × (gift.fd_list ≡ [] → c ≡ [])
send_now_lem_example = send_now_lem log 3 gift []

abbrev split : RecvMsg
split = record {
  bytes = 4;
  ancillary =
      scm_rights (5 ∷ [])
      ∷ unknown
      ∷ scm_credentials (record { pid = 1; uid = 2; gid = 3 })
      ∷ scm_rights (6 ∷ 7 ∷ [])
      ∷ [];
}

-- A socket that is ready at once and blocks as often as its state says.
abbrev ready : ℕ → IoResult Unit × ℕ
ready w = (ok tt, w)

abbrev busy : ℕ → IoResult ℕ × ℕ
busy zero = (ok 42, zero)
busy (suc w) = (err (from_kind would_block), w)

falls : (w w' : ℕ) → Blocks ready busy w w' → w' < w
falls zero w' b = absurd (ground arith)
falls (suc w) w' b = ground arith

retry-Ends_example : Ends ready busy (retry ready busy 4 3)
retry-Ends_example = retry-Ends ready busy (λ w. w) falls 4 3 (omega arith)

-- A peer that talks back as often as the state says, then goes.
abbrev chatter : ℕ → IoResult Ready × ℕ
chatter zero = (ok (record { read_closed = true; error = false }), zero)
chatter (suc w) = (ok (record { read_closed = false; error = false }), w)

-- A process whose descriptors are handed out in order, with a reactor that takes none.
record Table : Type 0 where
  used : ℕ → Bool
  next : ℕ
  free : (g : ℕ) → next ≤ g → used g ≡ false

abbrev grown : Table → Table
grown t = record {
  used = add_open t.used t.next;
  next = suc t.next;
  free = λ g h. ground (arith, t.free g (omega arith));
}

abbrev shut : ℕ → Table → Table
shut fd t = record {
  used = remove_open t.used fd;
  next = t.next;
  free = λ g h. ground (arith, t.free g h);
}

abbrev full : Kernel
full = record {
  World = Table;
  Address = List ℕ;
  is_open = λ t. t.used;
  address = λ path. ok path;
  socket = λ f t. (ok t.next, grown t);
  pair = λ f t. (ok (t.next, suc t.next), grown (grown t));
  passcred = λ fd t. (ok tt, t);
  bind_to = λ fd a t. (ok tt, t);
  listen = λ fd n t. (ok tt, t);
  connect_to = λ fd a t. (err (from_kind would_block), t);
  accept_with = λ f fd t. (err (from_kind would_block), t);
  register = λ fd t. (err (from_kind invalid_input), t);
  close = shut;
  socket-Makes = λ f t. (t.free t.next (omega arith), λ g. refl);
  pair-MakesTwo = λ f t. (
    t.free t.next (omega arith),
    t.free (suc t.next) (omega arith),
    (λ e. absurd (omega arith)),
    λ g. refl,
  );
  passcred_keeps = λ fd t g. refl;
  accept-Makes = λ f fd t g. refl;
  bind_to_keeps = λ fd a t g. refl;
  listen_keeps = λ fd n t g. refl;
  connect_to_keeps = λ fd a t g. refl;
  register_keeps = λ fd t g. refl;
  is_open-close = λ fd t g. refl;
}

abbrev bare : Table
bare = record { used = λ g. false; next = 0; free = λ g h. refl }

reactive-Result_example :
    Result full bare (and_then_reactive full (bind full (47 ∷ []) bare))
    × Result full bare (and_then_reactive full (connect full (47 ∷ []) bare))
    × Result full bare (and_then_reactive full (accept_now full 3 bare))
reactive-Result_example = reactive-Result full (47 ∷ []) 3 bare
