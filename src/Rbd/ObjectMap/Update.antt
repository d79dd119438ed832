-- ===== src/Rbd/ObjectMap/Update.antt =====
-- What the object map tells after a write to it.
use xcp_ng_ceph_rbd.Base.{
  ℕ, zero, suc, ◌*◌, ◌/◌, ◌%◌, ◌≤◌, ◌<◌, ◌≡◌, refl, ap, ◌∙◌, false, List, [], ◌∷◌, Option, some,
  length, length-set, get_elem?, get_elem?-lt, get_elem?-set_self, get_elem?-set_ne, set, All, ltb,
  lt→ltb, ◌==◌, ==_iff, if◌then◌else◌, true, none, ◌⊎◌, inl, inr, pos, arith, Bool-cases,
}
use native.Mathlib.Nat.{mod-lt}
use xcp_ng_ceph_rbd.Crush.Outcome.{ok}
use xcp_ng_ceph_rbd.Rbd.ObjectMap.{
  ObjectMap, get_field, set_field, map_get, map_set, exists, exists_clean, is_match, update_head,
  update_finish,
}
use xcp_ng_ceph_rbd.Rbd.ObjectMap.Fields.{set_field-kept}

-- There are as many bytes as the objects need.
pub record IsLoaded (m : ObjectMap) : Type 0 where
  pub room : m.size ≤ 4 * length m.bytes
  pub in_bytes : All (λ byte. byte < 256) m.bytes

All-get_elem? : (P : ℕ → Type 0) (xs : List ℕ) (i x : ℕ) → All P xs → get_elem? xs i ≡ some x → P x
All-get_elem? P [] i x a e = absurd cc
All-get_elem? P (y ∷ xs) zero x a e = let same : y ≡ x = cc in rw (← same) a.0
All-get_elem? P (y ∷ xs) (suc i) x a e = All-get_elem? P xs i x a.1 e

All-set : (P : ℕ → Type 0) (xs : List ℕ) (i v : ℕ) → All P xs → P v → All P (set xs i v)
All-set P [] i v a h = tt
All-set P (x ∷ xs) zero v a h = (h, a.1)
All-set P (x ∷ xs) (suc i) v a h = (a.0, All-set P xs i v a.1 h)

-- An object of a map that is loaded has a byte.
byte_of :
    (m : ObjectMap) (objno : ℕ)
    → IsLoaded m
    → objno < m.size
    → (byte : ℕ) × (get_elem? m.bytes (objno / 4) ≡ some byte) × (byte < 256)
byte_of m objno h lt =
    let (byte, e) = get_elem?-lt m.bytes (objno / 4) (omega (arith, h.room)) in
    (byte, e, All-get_elem? (λ b. b < 256) m.bytes (objno / 4) byte h.in_bytes e)

-- The byte of object `objno'` after a write to that of `objno`.
written :
    (m : ObjectMap) (objno objno' val byte byte' : ℕ)
    → get_elem? m.bytes (objno / 4) ≡ some byte
    → get_elem? m.bytes (objno' / 4) ≡ some byte'
    → byte < 256
    → val < 4
    → (after : ℕ) × (get_elem?
          (set m.bytes (objno / 4) (set_field byte (objno % 4) val))
          (objno' / 4)
        ≡ some after)
      × (get_field after (objno' % 4)
          ≡ (if objno' == objno then val else get_field byte' (objno' % 4)))
written m objno objno' val byte byte' e e' hb hv = elim (Bool-cases (objno' / 4 == objno / 4)) [
  | inl p ↦
      let same : objno' / 4 ≡ objno / 4 = (==_iff _ _).0 p in
      let one : byte' ≡ byte = cc in
      let (field, small) =
        set_field-kept byte val (objno % 4) (objno' % 4) hb hv (mod-lt objno (omega arith))
          (mod-lt objno' (omega arith)) in
      (
        set_field byte (objno % 4) val,
        ap (get_elem? (set m.bytes (objno / 4) (set_field byte (objno % 4) val))) same
            ∙ get_elem?-set_self m.bytes (objno / 4) (set_field byte (objno % 4) val) byte e,
        rw (tests_same same, one) field,
      )
  | inr p ↦ (
    byte',
    get_elem?-set_ne m.bytes (objno / 4) (objno' / 4) (set_field byte (objno % 4) val)
          (λ same. absurd (ground arith))
        ∙ e',
    rw (other p) refl,
  )
]
  where
    tests_same : objno' / 4 ≡ objno / 4 → (objno' == objno) ≡ (objno' % 4 == objno % 4)
    tests_same same = ground arith

    other : (objno' / 4 == objno / 4) ≡ false → (objno' == objno) ≡ false
    other p = ground arith

-- After __rbd_object_map_set of an object of a loaded map to one of the four states, the map is loaded
-- still, and __rbd_object_map_get tells that state for it and for each other object what it told
-- before.
pub map_get-map_set :
    (m : ObjectMap) (objno objno' val : ℕ)
    → IsLoaded m
    → objno < m.size
    → objno' < m.size
    → val < 4
    → (m' : ObjectMap) × (state : ℕ) × (map_set m objno val ≡ ok m')
      × IsLoaded m'
      × (map_get m objno' ≡ ok state)
      × (map_get m' objno' ≡ ok (if objno' == objno then val else state))
unfolding map_get map_set
map_get-map_set m objno objno' val h lt lt' small =
    let (byte, e, hb) = byte_of m objno h lt in
    let (byte', e', hb') = byte_of m objno' h lt' in
    let (after, w, field) = written m objno objno' val byte byte' e e' hb small in
    let (same, in_byte) =
      set_field-kept byte val (objno % 4) (objno % 4) hb small (mod-lt objno (omega arith))
        (mod-lt objno (omega arith)) in
    let m' = set m.bytes (objno / 4) (set_field byte (objno % 4) val) in
    (
      record m { bytes = m' },
      get_field byte' (objno' % 4),
      rw (is_state, lt→ltb _ _ lt, e) refl,
      record {
        room =
            omega (arith, h.room, length-set m.bytes (objno / 4) (set_field byte (objno % 4) val));
        in_bytes = All-set (λ b. b < 256) m.bytes (objno / 4) _ h.in_bytes in_byte;
      },
      rw (lt→ltb _ _ lt', e') refl,
      rw (lt→ltb _ _ lt', w) (ap ok field),
    )
  where
    is_state : ltb 3 val ≡ false
    is_state = ground arith

-- A state that an update expects: any, or the given one, or a clean one where one that exists is given.
abbrev pub IsExpected : (current_state : Option ℕ) → (state : ℕ) → Type 0
IsExpected none state = Unit
IsExpected (some current) state = (state ≡ current) ⊎ ((current ≡ exists) × (state ≡ exists_clean))

is_match-true :
    (current_state : Option ℕ) (state : ℕ)
    → IsExpected current_state state
    → is_match current_state state ≡ true
is_match-true none state h = refl
is_match-true (some current) state h = ground arith

is_match-false :
    (current_state : Option ℕ) (state : ℕ)
    → ¬ IsExpected current_state state
    → is_match current_state state ≡ false
is_match-false none state h = absurd (h tt)
is_match-false (some current) state h = ground arith

-- When an update of the image's map to one of the four states has succeeded, the loaded map in memory
-- is loaded still. It tells the new state for that object if its state was the expected one, or a
-- clean one where one that exists was expected, or none was; each other state is what it was.
pub update_finish_lem :
    (m : ObjectMap) (objno objno' new_state state : ℕ) (current_state : Option ℕ)
    → IsLoaded m
    → objno < m.size
    → objno' < m.size
    → new_state < 4
    → map_get m objno ≡ ok state
    → (m' : ObjectMap) × (state' : ℕ) × (update_finish m (pos 0) false objno new_state current_state
        ≡ ok (pos 0, m'))
      × IsLoaded m'
      × (map_get m objno' ≡ ok state')
      × (IsExpected current_state state
          → map_get m' objno' ≡ ok (if objno' == objno then new_state else state'))
      × (¬ IsExpected current_state state → map_get m' objno' ≡ ok state')
unfolding update_finish update_head
update_finish_lem m objno objno' new_state state current_state h lt lt' small told =
    let (m', state', e, h', before, after) =
      map_get-map_set m objno objno' new_state h lt lt' small in
    elim (Bool-cases (is_match current_state state)) [
      | inl p ↦
          rw (told, p, e)
            (m', state', refl, h', before, λ x. after, λ other. absurd (unmatched p other))
      | inr p ↦
          rw (told, p) (m, state', refl, h, before, λ x. absurd (matched p x), λ other. before)
    ]
  where
    unmatched : is_match current_state state ≡ true → ¬ IsExpected current_state state → ⊥
    unmatched p other = let q = is_match-false current_state state other in cc

    matched : is_match current_state state ≡ false → IsExpected current_state state → ⊥
    matched p x = let q = is_match-true current_state state x in cc
