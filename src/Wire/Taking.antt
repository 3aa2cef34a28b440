-- ===== src/Wire/Taking.antt =====
-- A kernel for the tests: a socket that takes everything.
use strong_ipc.Prelude.{refl, ℕ, List, [], ◌∷◌, ◌++◌, some}
use strong_ipc.Io.{ok}
use strong_ipc.Wire.Send.{Sockets}

abbrev pub taking : Sockets
taking = record {
  World = List (List ℕ);
  Control = List ℕ;
  no_control = [];
  rights_of = λ c. c;
  space_rights = λ n. n;
  space_rights_credentials = λ n. n;
  push_rights = λ space l. some l;
  sendmsg = λ fd bytes c f w. (ok tt, w ++ (bytes ∷ []));
  rights_of_none = refl;
  space_le = λ m n h. h;
  push_fits = λ space l h. (l, refl, refl);
}
