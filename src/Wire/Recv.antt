-- ===== src/Wire/Recv.antt =====
-- `recv_now` of src/wire.rs: unpacking what recvmsg(2) hands over. In a release build its
-- `debug_assert!` is absent: what the kernel has cut off of the ancillary data (MSG_CTRUNC) does not come.
pub mod Laws
use strong_ipc.Prelude.{ℕ, Bool, Option, some, none, List, [], ◌∷◌, ◌++◌, ltb}
use strong_ipc.Io.{IoError, IoResult, ok, err}
use strong_ipc.Wire.Sizes.{max_fds}

-- `rustix::net::UCred`
pub record UCred : Type 0 where
  pub pid : ℕ
  pub uid : ℕ
  pub gid : ℕ

-- `RecvAncillaryMessage`, a non-exhaustive enum
pub data Ancillary : Type 0 where
  scm_rights : List ℕ → Ancillary
  scm_credentials : UCred → Ancillary
  unknown : Ancillary

-- What rustix's `recvmsg` returns and leaves in the ancillary buffer
pub record RecvMsg : Type 0 where
  pub bytes : ℕ
  pub ancillary : List Ancillary

pub record Received : Type 0 where
  pub bytes : ℕ
  pub fds : List ℕ
  pub creds : Option UCred

-- `Received::truncated`
unfoldable pub truncated : Received → ℕ → Bool
truncated r buffer_len = ltb buffer_len r.bytes

-- The `for` loop over `ancillary.drain()`
unfoldable pub unpack : List Ancillary → List ℕ → Option UCred → List ℕ × Option UCred
unpack [] fds creds = (fds, creds)
unpack (scm_rights received ∷ rest) fds creds = unpack rest (fds ++ received) creds
unpack (scm_credentials c ∷ rest) fds creds = unpack rest fds (some c)
unpack (unknown ∷ rest) fds creds = unpack rest fds creds

-- `recv_now`, given the result of its system call
unfoldable pub recv_now : IoResult RecvMsg → IoResult Received
recv_now (err e) = err e
recv_now (ok m) =
    let (fds, creds) = unpack m.ancillary [] none in
    ok (record { bytes = m.bytes; fds = fds; creds = creds })
