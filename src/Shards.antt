-- ===== src/Shards.antt =====
-- What src/capability.rs and src/local.rs use of a `DashMap` keyed by socket identities: an interface,
-- whose laws are what the crate documents. Each operation holds one shard lock, so it is one step.
use strong_ipc.Prelude.{◌≡◌, refl, Bool, Option, none, some, if◌then◌else◌, ℕ_discrete}
use mathlib.Core.Logic.{ite}
use strong_ipc.Message.{SocketId}

unfoldable pub SocketId-discrete : Discrete SocketId
SocketId-discrete = hlevel ℕ_discrete

-- An entry after `remove_if`
abbrev pub keep_unless : {V : Type 0} → (V → Bool) → Option V → Option V
keep_unless p none = none
keep_unless p (some v) = if p v then none else some v

pub record DashMap (V : Type 0) : Type 1 where
  pub Map : Type 0
  pub new : Map
  pub get : Map → SocketId → Option V
  pub insert : SocketId → V → Map → Map
  pub remove_if : SocketId → (V → Bool) → Map → Map
  pub get-new : (j : SocketId) → get new j ≡ none
  pub get-insert :
      (i : SocketId) (v : V) (m : Map) (j : SocketId)
      → get (insert i v m) j ≡ ite (SocketId-discrete i j) (some v) (get m j)
  pub get-remove_if :
      (i : SocketId) (p : V → Bool) (m : Map) (j : SocketId)
      → get (remove_if i p m) j ≡ ite (SocketId-discrete i j) (keep_unless p (get m j)) (get m j)

-- The laws can be met: a map as a function.
abbrev pub functions : (V : Type 0) → DashMap V
functions V = record {
  Map = SocketId → Option V;
  new = λ _. none;
  get = λ m j. m j;
  insert = λ i v m j. ite (SocketId-discrete i j) (some v) (m j);
  remove_if = λ i p m j. ite (SocketId-discrete i j) (keep_unless p (m j)) (m j);
  get-new = λ j. refl;
  get-insert = λ i v m j. refl;
  get-remove_if = λ i p m j. refl;
}
