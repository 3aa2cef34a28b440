-- ===== src/Binding/New/Tests.antt =====
-- The first `new` at a path.
use strong_ipc.Prelude.{refl, true}
use strong_ipc.Io.{ok, addr_in_use, from_kind}
use strong_ipc.Binding.{init}
use strong_ipc.Binding.Paths.{Files, views}
use strong_ipc.Binding.New.{new_binding, stands}
use strong_ipc.Binding.New.Laws.{Arrives, new_binding-Arrives}

abbrev k : Files
k = views

new_binding-Arrives_example :
    Arrives k 0
      (init k)
      (stands (new_binding k 0 true (from_kind addr_in_use) (ok tt) k.fresh).0)
      (new_binding k 0 true (from_kind addr_in_use) (ok tt) k.fresh).1
new_binding-Arrives_example =
    new_binding-Arrives k 0 true (from_kind addr_in_use) (ok tt) (init k) refl
