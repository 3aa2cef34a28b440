-- ===== src/Wire/Limits.antt =====
-- `fd_limit`, `set_fd_limit` and `maximize_fd_limit` of src/wire.rs, over the two system calls.
-- `usize` and `u64` are 64 bits wide.
pub mod Laws
use strong_ipc.Prelude.{
  ℕ, ◌≡◌, ◌-◌, ◌^◌, Bool, true, false, ◌&&◌, Option, some, none, leb, ◌==◌, if◌then◌else◌,
}
use strong_ipc.Io.{IoError, IoResult, ok, err}

abbrev pub usize_max : ℕ
usize_max = 2 ^ 64 - 1

abbrev pub u64_max : ℕ
u64_max = 2 ^ 64 - 1

-- `rustix::process::Rlimit`; `none` is RLIM_INFINITY.
pub record Rlimit : Type 0 where
  pub current : Option ℕ
  pub maximum : Option ℕ

pub as_count : Option ℕ → ℕ
as_count none = usize_max
as_count (some v) = if leb v usize_max then v else usize_max

pub as_rlim : ℕ → Option ℕ
as_rlim count =
    if count == usize_max then none else some (if leb count u64_max then count else u64_max)

-- `!=` on two `Option<u64>`, negated
abbrev pub same_limit : Option ℕ → Option ℕ → Bool
same_limit none none = true
same_limit none (some _) = false
same_limit (some _) none = false
same_limit (some a) (some b) = a == b

-- getrlimit(2) and setrlimit(2) for RLIMIT_NOFILE, as rustix hands them over: a successful call sets
-- both limits to what was asked for, a failing one changes nothing.
pub record Resource : Type 1 where
  pub Process : Type 0
  pub getrlimit : Process → Rlimit
  pub setrlimit : Rlimit → Process → IoResult Unit × Process
  pub set_ok :
      (l : Rlimit) (p : Process) → (setrlimit l p).0 ≡ ok tt → getrlimit (setrlimit l p).1 ≡ l
  pub set_err :
      (l : Rlimit) (p : Process) (e : IoError)
      → (setrlimit l p).0 ≡ err e
      → getrlimit (setrlimit l p).1 ≡ getrlimit p

-- `?` after a call, then a result
abbrev pub then_ok : {P : Type 0} → IoResult Unit × P → ℕ → IoResult ℕ × P
then_ok (ok _, p) n = (ok n, p)
then_ok (err e, p) n = (err e, p)

module _ (k : Resource) where
  open k use {Process, getrlimit, setrlimit}

  pub fd_limit : Process → IoResult ℕ
  fd_limit p = ok (as_count (getrlimit p).current)

  pub set_fd_limit : ℕ → Process → IoResult ℕ × Process
  set_fd_limit limit p =
      let current = as_rlim limit in
      then_ok (setrlimit (record { current = current; maximum = (getrlimit p).maximum }) p)
        (as_count current)

  pub maximize_fd_limit : Process → IoResult ℕ × Process
  maximize_fd_limit p =
      let limit = getrlimit p in
      if same_limit limit.current limit.maximum
      then (ok (as_count limit.maximum), p)
      else then_ok (setrlimit (record { current = limit.maximum; maximum = limit.maximum }) p)
          (as_count limit.maximum)
