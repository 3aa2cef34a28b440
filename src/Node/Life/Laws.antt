-- ===== src/Node/Life/Laws.antt =====
-- How long a node lives.
use strong_ipc.Prelude.{
  ℕ, zero, suc, ◌+◌, ◌*◌, ◌≤◌, ◌<◌, ◌≡◌, ◌≢◌, ◌⊎◌, inl, inr, refl, true, false, arith,
}
use strong_ipc.Node.Life.{
  dropped, Task, unpolled, receiving, handling, left, discarded, unfiled, declared, ended, Life,
  is_dead, to_service, drop_node, Wind, polls, takes, skips, returns, hangs_up, aborts, discards,
  unfiles, declares, declares_first, unfiles_last, Step, wind, is_cut_off, arrives, share, release,
  give_up, drops, Reach, start, later, Winds, here, then,
}

-- The task is not out of its loop.
abbrev pub IsUp : Task → Type 0
IsUp t = (t ≡ unpolled) ⊎ (t ≡ receiving) ⊎ (t ≡ handling)

-- What the flags are while the task stands at `t`.
abbrev pub At : Task → Life → Type 0
At unpolled s = (s.dead ≡ false) × (s.has_entry ≡ true)
At receiving s = (s.dead ≡ false) × (s.has_entry ≡ true)
At handling s = (s.dead ≡ false) × (s.has_entry ≡ true)
At left s = (s.dead ≡ false) × (s.has_entry ≡ true)
At discarded s = (s.dead ≡ false) × (s.has_entry ≡ true)
At unfiled s = (s.dead ≡ false) × (s.has_entry ≡ false)
At declared s = (s.dead ≡ true) × (s.has_entry ≡ true)
At ended s = (s.dead ≡ true) × (s.has_entry ≡ false)

pub record Inv (s : Life) : Type 0 where
  pub flags : At s.task s
  pub abort_asked : s.aborted ≡ true → s.handle ≡ dropped
  pub asked : s.handle ≡ dropped → s.aborted ≡ true
  pub reason :
      IsUp s.task ⊎ (s.cut_off ≡ true) ⊎ (s.aborted ≡ true) ⊎ ((s.refs ≡ 0) × (s.queued ≡ 0))

Wind-Inv : {s t : Life} → Wind s t → Inv s → Inv t
Wind-Inv (polls e) v = ground (arith, v)
Wind-Inv (takes e f) v = ground (arith, v)
Wind-Inv (skips e f) v = ground (arith, v)
Wind-Inv (returns e) v = ground (arith, v)
Wind-Inv (hangs_up e f g) v = ground (arith, v)
Wind-Inv (aborts (inl e) f) v = ground (arith, v)
Wind-Inv (aborts (inr e) f) v = ground (arith, v)
Wind-Inv (discards e f) v = ground (arith, v)
Wind-Inv (unfiles (inl e)) v = ground (arith, v)
Wind-Inv (unfiles (inr e)) v = ground (arith, v)
Wind-Inv (declares e) v = ground (arith, v)
Wind-Inv (declares_first e) v = ground (arith, v)
Wind-Inv (unfiles_last e) v = ground (arith, v)

Step-Inv : {s t : Life} → Step s t → Inv s → Inv t
unfolding to_service drop_node
Step-Inv (wind w) v = Wind-Inv w v
Step-Inv (is_cut_off (inl e)) v = ground (arith, v)
Step-Inv (is_cut_off (inr e)) v = ground (arith, v)
Step-Inv (arrives e) v = ground (arith, v)
Step-Inv (share e) v = ground (arith, v)
Step-Inv (release e) v = ground (arith, v)
Step-Inv (give_up e) v = ground (arith, v)
Step-Inv (drops e) v = ground (arith, v)

Reach-Inv : {s : Life} → Reach s → Inv s
Reach-Inv start = ground arith
Reach-Inv (later r st) = Step-Inv st (Reach-Inv r)

-- As long as a capability to it is open, or a message is in its socket, a node that has not been dropped
-- is in its loop or about to enter it, is not dead and has not dropped its local entry, whether its
-- owner keeps it or has given it up by `to_service`, unless an io error, a panic in its handler or an
-- empty message ends its loop.
pub stays-IsUp :
    {s : Life}
    → Reach s
    → s.handle ≢ dropped
    → s.cut_off ≡ false
    → (0 < s.refs) ⊎ (0 < s.queued)
    → IsUp s.task × (is_dead s ≡ false) × (s.has_entry ≡ true)
unfolding is_dead
stays-IsUp {s} r h c (inl p) = ground (arith, Reach-Inv r)
stays-IsUp {s} r h c (inr p) = ground (arith, Reach-Inv r)

-- The last capability to it is closed, or it has been dropped.
abbrev pub Leaving : Life → Type 0
Leaving s = (s.refs ≡ 0) ⊎ (s.handle ≡ dropped)

-- The task has ended, the node is dead, and the task has dropped its local entry.
abbrev pub IsDown : Life → Type 0
IsDown s = (s.task ≡ ended) × (is_dead s ≡ true) × (s.has_entry ≡ false)

-- Steps of its own that a task still has at most
abbrev pub rank_of : Task → ℕ
rank_of unpolled = 4
rank_of handling = 4
rank_of receiving = 3
rank_of left = 2
rank_of discarded = 2
rank_of unfiled = 1
rank_of declared = 1
rank_of ended = 0

abbrev pub rank : Life → ℕ
rank s = 2 * s.queued + rank_of s.task

pub steps : {s t : Life} → Winds s t → ℕ
steps here = 0
steps (then w ws) = suc (steps ws)

Wind-rank-lt : {s t : Life} → Wind s t → rank t < rank s
Wind-rank-lt (polls e) = ground arith
Wind-rank-lt (takes e f) = ground arith
Wind-rank-lt (skips e f) = ground arith
Wind-rank-lt (returns e) = ground arith
Wind-rank-lt (hangs_up e f g) = ground arith
Wind-rank-lt (aborts (inl e) f) = ground arith
Wind-rank-lt (aborts (inr e) f) = ground arith
Wind-rank-lt (discards e f) = ground arith
Wind-rank-lt (unfiles (inl e)) = ground arith
Wind-rank-lt (unfiles (inr e)) = ground arith
Wind-rank-lt (declares e) = ground arith
Wind-rank-lt (declares_first e) = ground arith
Wind-rank-lt (unfiles_last e) = ground arith

steps-rank : {s t : Life} (ws : Winds s t) → steps ws + rank t ≤ rank s
unfolding steps
steps-rank here = omega arith
steps-rank (then w ws) = omega (arith, Wind-rank-lt w, steps-rank ws)

Wind-Leaving : {s t : Life} → Wind s t → Leaving s → Leaving t
Wind-Leaving (polls e) l = l
Wind-Leaving (takes e f) l = l
Wind-Leaving (skips e f) l = l
Wind-Leaving (returns e) l = l
Wind-Leaving (hangs_up e f g) l = l
Wind-Leaving (aborts e f) l = l
Wind-Leaving (discards e f) l = l
Wind-Leaving (unfiles e) l = l
Wind-Leaving (declares e) l = l
Wind-Leaving (declares_first e) l = l
Wind-Leaving (unfiles_last e) l = l

-- The task of a node that is being left can move until it is down.
moves : (s : Life) → Inv s → Leaving s → IsDown s ⊎ ((u : Life) × Wind s u)
unfolding is_dead
moves s v why = go s.task refl why
  where
    received : (n : ℕ) → s.queued ≡ n → s.task ≡ receiving → s.refs ≡ 0 → (u : Life) × Wind s u
    received zero q e p = (_, hangs_up e p q)
    received (suc n) q e p = (_, takes e (ground arith))

    flags : At s.task s
    flags = v.flags

    go : (k : Task) → s.task ≡ k → Leaving s → IsDown s ⊎ ((u : Life) × Wind s u)
    go unpolled e w = inr (_, polls e)
    go receiving e (inl p) = inr (received s.queued refl e p)
    go receiving e (inr g) = inr (_, aborts (inl e) (v.asked g))
    go handling e w = inr (_, returns e)
    go left e w = inr (_, unfiles (inl e))
    go discarded e w = inr (_, unfiles (inr e))
    go unfiled e w = inr (_, declares e)
    go declared e w = inr (_, unfiles_last e)
    go ended e w = inl (e, ground (arith, flags), ground (arith, flags))

-- Once the last capability to a node is closed or it has been dropped, its task comes to its end by its own
-- steps, the returns of its handler among them: a run of those has no more steps than twice the messages
-- in its socket and four, and as long as the task has not ended, with the node dead and the local entry
-- dropped, there is a next one. So the end comes as long as each call of the handler returns.
pub goes-IsDown :
    {s t : Life}
    → Reach s
    → Leaving s
    → (ws : Winds s t) → (steps ws ≤ 2 * s.queued + 4) × (IsDown t ⊎ ((u : Life) × Wind t u))
goes-IsDown {s} r why ws =
    (omega (arith, steps-rank ws, few s.task), last_move (Reach-Inv r) why ws)
  where
    few : (k : Task) → rank_of k ≤ 4
    few unpolled = omega arith
    few handling = omega arith
    few receiving = omega arith
    few left = omega arith
    few discarded = omega arith
    few unfiled = omega arith
    few declared = omega arith
    few ended = omega arith

    last_move : {s t : Life} → Inv s → Leaving s → Winds s t → IsDown t ⊎ ((u : Life) × Wind t u)
    last_move {s} v why here = moves s v why
    last_move v why (then w ws) = last_move (Wind-Inv w v) (Wind-Leaving w why) ws
