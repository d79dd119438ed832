-- ===== src/Striper/Objects.antt =====
-- ceph_get_num_objects of kernel-modules/src/libceph/striper.c: how many objects hold a file.
pub mod Cover
use xcp_ng_ceph_rbd.Base.{ℕ, ◌+◌, ◌-◌, ◌*◌, ◌/◌, ◌%◌, ◌^◌, ◌&&◌, ltb, if◌then◌else◌, u64, sub64}
use xcp_ng_ceph_rbd.Striper.Layout.{Layout}

-- `period` is a product of two u32 in 64 bits, and DIV64_U64_ROUND_UP adds `period - 1`.
pub get_num_objects : Layout → ℕ → ℕ
get_num_objects l size =
    let period = l.stripe_count * l.object_size in
    let num_periods = u64 (size + period - 1) / period in
    let remainder_bytes = size % period in
    let remainder_objs =
      if ltb 0 remainder_bytes && ltb remainder_bytes (l.stripe_count * l.stripe_unit)
      then l.stripe_count - u64 (remainder_bytes + l.stripe_unit - 1) / l.stripe_unit
      else 0 in
    sub64 (u64 (num_periods * l.stripe_count)) remainder_objs
