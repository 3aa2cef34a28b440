-- ===== src/Wire/Recv/Laws.antt =====
-- No descriptor that arrives is dropped.
use strong_ipc.Prelude.{ℕ, ◌≡◌, Option, some, none, List, [], ◌∷◌, ◌++◌, append_assoc, append-nil}
use strong_ipc.Io.{ok}
use strong_ipc.Wire.Recv.{
  UCred, Ancillary, scm_rights, scm_credentials, unknown, RecvMsg, unpack, recv_now,
}

abbrev pub rights : Ancillary → List ℕ
rights (scm_rights l) = l
rights (scm_credentials c) = []
rights unknown = []

-- The descriptors of all control messages, in order
abbrev pub all_rights : List Ancillary → List ℕ
all_rights [] = []
all_rights (a ∷ l) = rights a ++ all_rights l

-- The last credentials, or `d`
abbrev pub last_creds : Option UCred → List Ancillary → Option UCred
last_creds d [] = d
last_creds d (scm_credentials c ∷ l) = last_creds (some c) l
last_creds d (scm_rights f ∷ l) = last_creds d l
last_creds d (unknown ∷ l) = last_creds d l

unpack_lem :
    (l : List Ancillary) (fds : List ℕ) (creds : Option UCred)
    → unpack l fds creds ≡ (fds ++ all_rights l, last_creds creds l)
unfolding unpack
unpack_lem [] fds creds = rw (append-nil fds)
unpack_lem (scm_rights f ∷ l) fds creds =
    rw (unpack_lem l (fds ++ f) creds, append_assoc fds f (all_rights l))
unpack_lem (scm_credentials c ∷ l) fds creds = unpack_lem l fds (some c)
unpack_lem (unknown ∷ l) fds creds = unpack_lem l fds creds

-- A successful `recv_now` hands on every descriptor of every `SCM_RIGHTS` block in the order of arrival,
-- the last credentials if any came, and the datagram's length.
pub recv_now_lem :
    (m : RecvMsg)
    → recv_now (ok m)
      ≡ ok (record {
        bytes = m.bytes;
        fds = all_rights m.ancillary;
        creds = last_creds none m.ancillary;
      })
unfolding recv_now
recv_now_lem m = rw (unpack_lem m.ancillary [] none)
