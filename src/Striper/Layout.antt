-- ===== src/Striper/Layout.antt =====
-- ceph_calc_file_object_mapping of kernel-modules/src/libceph/striper.c, and its layout.
-- A u64 or u32 is a number, and each sum or product of the C code that could leave its type is
-- wrapped. Division by zero, which traps in the kernel, is left to the hypothesis `IsValid`.
pub mod Bounds
pub mod Inverse
use xcp_ng_ceph_rbd.Base.{ℕ, ◌+◌, ◌-◌, ◌*◌, ◌/◌, ◌%◌, ◌^◌, ◌<◌, ◌≡◌, min, u32, u64}

-- struct ceph_file_layout, less the pool.
pub record Layout : Type 0 where
  pub stripe_unit : ℕ
  pub stripe_count : ℕ
  pub object_size : ℕ

-- What the callers guarantee of a layout: whole stripe units make up an object.
pub record IsValid (l : Layout) : Type 0 where
  pub unit_pos : 0 < l.stripe_unit
  pub count_pos : 0 < l.stripe_count
  pub size_pos : 0 < l.object_size
  pub whole : l.object_size / l.stripe_unit * l.stripe_unit ≡ l.object_size
  pub unit_word : l.stripe_unit < 2 ^ 32
  pub count_word : l.stripe_count < 2 ^ 32
  pub size_word : l.object_size < 2 ^ 32

-- The three results of `ceph_calc_file_object_mapping`.
pub record Mapping : Type 0 where
  pub objno : ℕ
  pub objoff : ℕ
  pub xlen : ℕ

unfoldable pub calc_file_object_mapping : Layout → ℕ → ℕ → Mapping
calc_file_object_mapping l off len =
    let stripes_per_object = l.object_size / l.stripe_unit in
    let blockno = off / l.stripe_unit in
    let blockoff = off % l.stripe_unit in
    let stripeno = blockno / l.stripe_count in
    let stripepos = blockno % l.stripe_count in
    let objsetno = stripeno / stripes_per_object in
    let objsetpos = stripeno % stripes_per_object in
    record {
      objno = u64 (objsetno * l.stripe_count + stripepos);
      objoff = u32 (objsetpos * l.stripe_unit + blockoff);
      xlen = u32 (min len (l.stripe_unit - blockoff));
    }
