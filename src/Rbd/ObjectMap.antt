-- ===== src/Rbd/ObjectMap.antt =====
-- The object map of kernel-modules/src/rbd/rbd.c: two bits for each object of an image, four objects
-- to a byte, the first in the highest bits. A read or write behind the map is a fault.
pub mod Fields
pub mod Update
mod Tests
use xcp_ng_ceph_rbd.Base.{
  ℕ, zero, suc, ◌+◌, ◌-◌, ◌*◌, ◌/◌, ◌%◌, ◌^◌, ◌&&◌, ◌||◌, Bool, true, false, not, List, [], ◌∷◌,
  Option, none, some, length, get_elem?, set, bit_and, bit_or, ltb, leb, ◌==◌, if◌then◌else◌, ℤ,
  pos, negsuc,
}
use xcp_ng_ceph_rbd.Crush.Outcome.{Outcome, ok, fault, must, ◌>>=◌}
use xcp_ng_ceph_rbd.Rbd.Pending.{is_zero}

-- `object_map` and `object_map_size` of struct rbd_device.
pub record ObjectMap : Type 0 where
  pub bytes : List ℕ
  pub size : ℕ

-- OBJECT_NONEXISTENT, OBJECT_EXISTS, OBJECT_PENDING and OBJECT_EXISTS_CLEAN.
abbrev pub nonexistent : ℕ
nonexistent = 0

abbrev pub exists : ℕ
exists = 1

abbrev pub pending : ℕ
pending = 2

abbrev pub exists_clean : ℕ
exists_clean = 3

-- The shift of __rbd_object_map_index, and what is read and written there in a byte.
abbrev pub shift_of : ℕ → ℕ
shift_of off = (4 - off - 1) * 2

abbrev pub get_field : (byte off : ℕ) → ℕ
get_field byte off = byte / 2 ^ shift_of off % 4

abbrev pub set_field : (byte off val : ℕ) → ℕ
set_field byte off val = bit_or (bit_and byte (255 - 3 * 2 ^ shift_of off)) (val * 2 ^ shift_of off)

-- __rbd_object_map_get and __rbd_object_map_set.
pub map_get : ObjectMap → (objno : ℕ) → Outcome ℕ
map_get m objno =
    if ltb objno m.size
    then (must (get_elem? m.bytes (objno / 4)) >>= λ byte. ok (get_field byte (objno % 4)))
    else fault

pub map_set : ObjectMap → (objno val : ℕ) → Outcome ObjectMap
map_set m objno val =
    if ltb 3 val
    then fault
    else if ltb objno m.size
    then (must (get_elem? m.bytes (objno / 4)) >>= λ byte.
        ok (record m { bytes = set m.bytes (objno / 4) (set_field byte (objno % 4) val) }))
    else fault

-- What use_object_map asks of the device.
pub record Device : Type 0 where
  pub is_snap : Bool
  pub is_ro : Bool
  pub has_map : Bool
  pub invalid : Bool

pub use_object_map : Device → Bool
use_object_map d = if not d.is_snap && d.is_ro then false else d.has_map && not d.invalid

pub map_may_exist : Device → ObjectMap → (objno : ℕ) → Outcome Bool
map_may_exist d m objno =
    if use_object_map d
    then (map_get m objno >>= λ state. ok (not (state == nonexistent)))
    else ok true

-- update_needed.
abbrev pub needed : (state new_state : ℕ) → Bool
needed state new_state = not (
    state == new_state
    || (new_state == pending && state == nonexistent
        || new_state == nonexistent && not (state == pending)))

pub update_needed : ObjectMap → (objno new_state : ℕ) → Outcome Bool
update_needed m objno new_state = map_get m objno >>= λ state. ok (needed state new_state)

-- rbd_object_map_update_finish, for an update of the map of the image or of a snapshot.
abbrev pub is_match : (current_state : Option ℕ) → (state : ℕ) → Bool
is_match none state = true
is_match (some current) state = current == state || (current == exists && state == exists_clean)

pub update_head : ObjectMap → (objno new_state : ℕ) → (current_state : Option ℕ) → Outcome ObjectMap
update_head m objno new_state current_state = map_get m objno >>= λ state.
    (if is_match current_state state then map_set m objno new_state else ok m)

pub update_finish :
    ObjectMap
    → (result : ℤ) → (of_snap : Bool) → (objno new_state : ℕ) → (current_state : Option ℕ)
    → Outcome (ℤ × ObjectMap)
update_finish m result of_snap objno new_state current_state =
    if is_zero result
    then if of_snap
      then ok (pos 0, m)
      else (update_head m objno new_state current_state >>= λ m'. ok (pos 0, m'))
    else ok (result, m)
