-- ===== src/Rbd/Write/Waits.antt =====
-- When a write waits for a result, how many it still waits for at most, and in which order it sends.
use xcp_ng_ceph_rbd.Base.{
  ℕ, suc, ◌+◌, ◌≤◌, ◌<◌, ◌≡◌, ◌⊎◌, true, false, List, [], ◌∷◌, ◌++◌, none, some, ℤ, arith,
}
use xcp_ng_ceph_rbd.Crush.Outcome.{ok}
use xcp_ng_ceph_rbd.Striper.FileExtents.{FileExtent}
use xcp_ng_ceph_rbd.Rbd.Pending.{Pending}
use xcp_ng_ceph_rbd.Rbd.Copyup.{
  WriteState, start, pre_object_map, object, copyup_wait, copyup, post_object_map, CopyupState,
  copyup_start, read_parent, maps_wait, object_maps, write_wait, write_object, WriteReq, Sent,
  map_update, write, parent_read, copyup_empty, copyup_current, Step, mods_only, is_clean, is_none,
}

abbrev pub total_len : List FileExtent → ℕ
total_len [] = 0
total_len (fe ∷ fes) = fe.len + total_len fes

-- A request with nothing pending, whose part of the parent image is known if it may be copied up.
abbrev pub IsFresh : WriteReq → Type 0
IsFresh req =
    (is_clean req.pending ≡ true)
    × (req.has_bvecs ≡ false)
    × (req.copyup_enabled ≡ true → is_none req.img_extents ≡ false)
    × (total_len req.img_extents < mods_only)

abbrev pub IsCopying : CopyupState → Pending → List FileExtent → Type 0
IsCopying copyup_start p fes = ⊥
IsCopying read_parent p fes = (is_clean p ≡ true) × (total_len fes < mods_only)
IsCopying maps_wait p fes = (1 ≤ p.num_pending) × (total_len fes < mods_only)
IsCopying object_maps p fes = ⊥
IsCopying write_wait p fes = 1 ≤ p.num_pending
IsCopying write_object p fes = Unit

abbrev pub IsWaitingIn : WriteState → WriteReq → Type 0
IsWaitingIn start req = ⊥
IsWaitingIn pre_object_map req = IsFresh req
IsWaitingIn object req = IsFresh req
IsWaitingIn copyup_wait req = IsCopying req.copyup_state req.pending req.img_extents
IsWaitingIn copyup req = ⊥
IsWaitingIn post_object_map req = Unit

-- A request that waits for a result.
abbrev pub IsWaiting : WriteReq → Type 0
IsWaiting req = IsWaitingIn req.write_state req

-- How many results are missing at most, with up to `k` snapshots.
abbrev pub copyup_left : (k : ℕ) → CopyupState → (num_pending : ℕ) → ℕ
copyup_left k read_parent n = k + 4
copyup_left k maps_wait n = n + 3
copyup_left k write_wait n = n + 1
copyup_left k _ n = 2

abbrev pub left_in : (k : ℕ) → WriteState → WriteReq → ℕ
left_in k pre_object_map req = k + 6
left_in k object req = k + 5
left_in k copyup_wait req = copyup_left k req.copyup_state req.pending.num_pending
left_in k _ req = 1

abbrev pub left : (k : ℕ) → WriteReq → ℕ
left k req = left_in k req.write_state req

-- The place of a request in the order: an update of the object map before the write, the write, the
-- read of the parent image, the updates for snapshots, the copyups, and the update after a deletion.
abbrev pub rank : Sent → ℕ
rank (map_update none new_state none) = 0
rank write = 1
rank (parent_read bytes) = 2
rank (map_update (some snap) new_state current_state) = 3
rank (copyup_empty bytes) = 4
rank (copyup_current bytes) = 5
rank (map_update none new_state (some current)) = 6

-- What may follow: only updates for snapshots may come more than once.
abbrev pub next : Sent → ℕ
next (map_update (some snap) new_state current_state) = 3
next sent = suc (rank sent)

abbrev pub Rises : (from : ℕ) → List Sent → (to : ℕ) → Type 0
Rises from [] to = from ≤ to
Rises from (sent ∷ log) to = (from ≤ rank sent) × Rises (next sent) log to

-- From where on a request that waits may still send.
abbrev pub copyup_floor : CopyupState → ℕ
copyup_floor read_parent = 3
copyup_floor maps_wait = 3
copyup_floor _ = 6

abbrev pub floor_in : WriteState → CopyupState → ℕ
floor_in start c = 0
floor_in pre_object_map c = 1
floor_in object c = 2
floor_in copyup_wait c = copyup_floor c
floor_in copyup c = 6
floor_in post_object_map c = 7

abbrev pub floor : WriteReq → ℕ
floor req = floor_in req.write_state req.copyup_state

pub Rises-from : (a b : ℕ) (log : List Sent) (c : ℕ) → a ≤ b → Rises b log c → Rises a log c
Rises-from a b [] c le r = omega arith
Rises-from a b (sent ∷ log) c le r = (omega (arith, r.0), r.1)

pub Rises-append :
    (a : ℕ) (log : List Sent) (b : ℕ) (more : List Sent) (c : ℕ)
    → Rises a log b
    → Rises b more c
    → Rises a (log ++ more) c
Rises-append a [] b more c r s = Rises-from a b more c r s
Rises-append a (sent ∷ log) b more c r s = (r.0, Rises-append (next sent) log b more c r.1 s)

pub Rises-to : (a : ℕ) (log : List Sent) (b c : ℕ) → b ≤ c → Rises a log b → Rises a log c
Rises-to a [] b c le r = omega arith
Rises-to a (sent ∷ log) b c le r = (r.0, Rises-to (next sent) log b c le r.1)

-- How a step goes on from `from`: the request ends, or waits for fewer results than `m`.
abbrev pub Goes : (k from m : ℕ) → Step → Type 0
Goes k from m step =
    ((req : WriteReq) × (result : ℤ) × (log : List Sent) × (step ≡ ok (true, req, result, log))
      × Rises from log 7)
    ⊎ ((req : WriteReq) × (result : ℤ) × (log : List Sent) × (step ≡ ok (false, req, result, log))
        × IsWaiting req
        × Rises from log (floor req)
        × (left k req < m))

-- The same for the copyup alone.
abbrev pub Copies : (k from m : ℕ) → Step → Type 0
Copies k from m step =
    ((req : WriteReq) × (result : ℤ) × (log : List Sent) × (step ≡ ok (true, req, result, log))
      × Rises from log 6)
    ⊎ ((req : WriteReq) × (result : ℤ) × (log : List Sent) × (step ≡ ok (false, req, result, log))
        × (req.write_state ≡ copyup_wait)
        × IsCopying req.copyup_state req.pending req.img_extents
        × Rises from log (copyup_floor req.copyup_state)
        × (copyup_left k req.copyup_state req.pending.num_pending < m))
