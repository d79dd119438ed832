-- ===== src/Striper/FileExtents.antt =====
-- ceph_extent_to_file of kernel-modules/src/libceph/striper.c: an object extent as file extents.
pub mod Round
pub mod Reverse
use xcp_ng_ceph_rbd.Base.{
  ℕ, zero, suc, ◌+◌, ◌-◌, ◌*◌, ◌/◌, ◌%◌, ◌^◌, List, [], ◌∷◌, ◌++◌, Bool, true, false, min, ◌==◌,
  if◌then◌else◌, u32, u64, sub64, length,
}
use xcp_ng_ceph_rbd.Striper.Layout.{Layout}

-- struct ceph_file_extent.
pub record FileExtent : Type 0 where
  pub off : ℕ
  pub len : ℕ

-- `enomem` is -ENOMEM, `bug` the BUG_ON, and `stuck` a loop that runs out of fuel.
pub data Reply : Type 0 where
  extents : List FileExtent → Reply
  enomem bug stuck : Reply

-- DIV_ROUND_UP_ULL and DIV_ROUND_DOWN_ULL on 64 bits.
abbrev pub div_round_up : ℕ → ℕ → ℕ
div_round_up n d = u64 (n + d - 1) / d

-- What `kmalloc_array` is asked for.
unfoldable pub num_file_extents : Layout → ℕ → ℕ → ℕ
num_file_extents l objoff objlen =
    u32 (sub64 (div_round_up (u64 (objoff + objlen)) l.stripe_unit) (objoff / l.stripe_unit))

-- The file extent of one round of the loop.
unfoldable pub file_extent : Layout → ℕ → ℕ → ℕ → ℕ → FileExtent
file_extent l objno objoff objlen blockoff =
    let stripes_per_object = l.object_size / l.stripe_unit in
    let objsetno = objno / l.stripe_count in
    let stripepos = objno % l.stripe_count in
    let stripeno = u64 (objoff / l.stripe_unit + u64 (objsetno * stripes_per_object)) in
    let blockno = u64 (stripeno * l.stripe_count + stripepos) in
    record {
      off = u64 (blockno * l.stripe_unit + blockoff);
      len = min objlen (l.stripe_unit - blockoff);
    }

-- The loop: the extents from here on, or `none` when the fuel runs out.
unfoldable pub reverse_map : Layout → ℕ → ℕ → ℕ → ℕ → ℕ → List FileExtent → Reply
reverse_map l objno fuel objoff zero blockoff done = extents done
reverse_map l objno zero objoff (suc n) blockoff done = stuck
reverse_map l objno (suc fuel) objoff (suc n) blockoff done =
    let fe = file_extent l objno objoff (suc n) blockoff in
    reverse_map l objno fuel (u64 (objoff + fe.len)) (sub64 (suc n) fe.len) 0 (done ++ (fe ∷ []))

-- BUG_ON(i != *num_file_extents).
abbrev pub check_count : ℕ → Reply → Reply
check_count n (extents fes) = if length fes == n then extents fes else bug
check_count n r = r

-- `memory` tells whether `kmalloc_array` succeeds.
unfoldable pub extent_to_file : Layout → Bool → ℕ → ℕ → ℕ → Reply
extent_to_file l memory objno objoff zero = extents []
extent_to_file l false objno objoff (suc n) = enomem
extent_to_file l true objno objoff (suc n) =
    check_count (num_file_extents l objoff (suc n))
      (reverse_map l objno (suc n) objoff (suc n) (objoff % l.stripe_unit) [])
