-- ===== src/Local/Tests.antt =====
-- The theorems on the local map applied to handlers 1 and 2, of types 50 and 60.
use strong_ipc.Prelude.{ℕ, ◌≡◌, none, some, if◌then◌else◌, ◌==◌}
use strong_ipc.Message.{SocketId, Ref}
use strong_ipc.Shards.{DashMap, functions}
use strong_ipc.Local.{LocalEntry, Locals, file, drop_entry}
use strong_ipc.Local.Laws.{late_drop_shared}

abbrev d : DashMap ℕ
d = functions ℕ

abbrev here : SocketId
here = (7, 20)

abbrev alive : Locals d
alive = record { map = d.new; cell = λ h. record { tag = if h == 1 then 50 else 60; strong = 1 } }

abbrev filed : Locals d
filed = (file d here 1 alive).1

abbrev to_here : Ref
to_here = record { addr = 0; fd = 3; id = some here }

-- Handler 2 has been filed under the reissued identity before handler 1's entry goes.
abbrev refiled : Locals d
refiled = (file d here 2 filed).1

abbrev stale : LocalEntry
stale = record { id = here; filed = 1 }

late_drop_shared_example :
    (d.get (file d here 1 filed).1.map here ≡ some 1)
    × (d.get (drop_entry d stale (file d here 1 filed).1).map here ≡ none)
unfolding file
late_drop_shared_example = late_drop_shared d here 1 alive
