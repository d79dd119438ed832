-- ===== src/Rbd/ObjectMap/Tests.antt =====
-- An object map of kernel-modules/src/rbd/rbd.c for six objects, of which the first and the sixth exist.
use xcp_ng_ceph_rbd.Base.{ℕ, ◌≡◌, refl, false, [], ◌∷◌, some, if◌then◌else◌, ◌==◌, pos, arith}
use xcp_ng_ceph_rbd.Crush.Outcome.{ok}
use xcp_ng_ceph_rbd.Rbd.ObjectMap.{ObjectMap, exists, pending, map_get, map_set, update_finish}
use xcp_ng_ceph_rbd.Rbd.ObjectMap.Update.{IsLoaded, IsExpected, map_get-map_set, update_finish_lem}

abbrev six : ObjectMap
six = record { bytes = 0x40 ∷ 0x10 ∷ []; size = 6 }

six-IsLoaded : IsLoaded six
six-IsLoaded = record { room = omega arith; in_bytes = (omega arith, (omega arith, tt)) }

sixth_told : map_get six 5 ≡ ok exists
unfolding map_get
sixth_told = refl

abbrev first : ℕ
first = 0

abbrev sixth : ℕ
sixth = 5

map_get-map_set_example :
    (m' : ObjectMap) × (state : ℕ) × (map_set six sixth pending ≡ ok m')
    × IsLoaded m'
    × (map_get six first ≡ ok state)
    × (map_get m' first ≡ ok (if first == sixth then pending else state))
map_get-map_set_example =
    map_get-map_set six sixth first pending six-IsLoaded (omega arith) (omega arith) (omega arith)

update_finish_lem_example :
    (m' : ObjectMap) × (state' : ℕ) × (update_finish six (pos 0) false sixth pending (some exists)
      ≡ ok (pos 0, m'))
    × IsLoaded m'
    × (map_get six first ≡ ok state')
    × (IsExpected (some exists) exists
        → map_get m' first ≡ ok (if first == sixth then pending else state'))
    × (¬ IsExpected (some exists) exists → map_get m' first ≡ ok state')
update_finish_lem_example =
    update_finish_lem six sixth first pending exists (some exists) six-IsLoaded (omega arith)
      (omega arith) (omega arith) sixth_told
