-- ===== src/Node/Build/Tests.antt =====
-- The first node of a process.
use strong_ipc.Prelude.{ℕ, refl, some, if◌then◌else◌, ◌==◌, arith}
use strong_ipc.Io.{ok}
use strong_ipc.Message.{SocketId}
use strong_ipc.Shards.{DashMap, functions}
use strong_ipc.Capability.Registry.Steps.{init, start}
use strong_ipc.Node.Build.{Pair, Process, new_raw}
use strong_ipc.Node.Build.Laws.{Works, new_raw-Works}

abbrev d : DashMap ℕ
d = functions ℕ

abbrev ident : ℕ → SocketId
ident x = (7, x)

abbrev empty : Process d
empty = record {
  reg = init d ident;
  locals = record {
    map = d.new;
    cell = λ h. record { tag = if h == 1 then 50 else 60; strong = 1 };
  };
}

abbrev pair : Pair
pair = record { tx = 3; rx = 4; x = 20; y = 21 }

new_raw-Works_example :
    Works d ident pair 50 1 empty (new_raw d (ok pair) (ok tt) (some (7, 20)) 1 empty)
new_raw-Works_example =
    new_raw-Works d ident pair (some (7, 20)) (ok tt) 50 1 empty start
      (record {
        tx_free = refl;
        rx_free = refl;
        apart = λ e. ground arith;
        x_new = λ g z e. absurd (ground arith);
        y_new = λ g z e. absurd (ground arith);
        inodes = λ e. ground arith;
      })
      refl
