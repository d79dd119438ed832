-- ===== src/Striper/Tests.antt =====
-- The code of kernel-modules/src/libceph/striper.c run on a small layout: three objects of four
-- stripe units of four bytes to an object set.
use xcp_ng_ceph_rbd.Base.{ℕ, ◌+◌, ◌%◌, ◌≤◌, ◌<◌, ◌≡◌, ◌≢◌, refl, true, List, [], none, some, arith}
use mathlib.Core.Logic.{◌↔◌}
use mathlib.Core.List.{reverse}
use xcp_ng_ceph_rbd.Striper.Layout.{Layout, IsValid, calc_file_object_mapping}
use xcp_ng_ceph_rbd.Striper.Layout.Bounds.{calc_file_object_mapping_bounds}
use xcp_ng_ceph_rbd.Striper.Extents.{Caller, ok, file_to_extents}
use xcp_ng_ceph_rbd.Striper.Extents.Round.{UpTo}
use xcp_ng_ceph_rbd.Striper.Extents.Build.{Built, file_to_extents-Built}
use xcp_ng_ceph_rbd.Striper.Extents.Iterate.{iterate-file_to_extents}
use xcp_ng_ceph_rbd.Striper.Extents.{iterate_extents}
use xcp_ng_ceph_rbd.Striper.FileExtents.{FileExtent, extents, extent_to_file}
use xcp_ng_ceph_rbd.Striper.FileExtents.Reverse.{MapsTo, extent_to_file-MapsTo}
use xcp_ng_ceph_rbd.Striper.Objects.{get_num_objects}
use xcp_ng_ceph_rbd.Striper.Objects.Cover.{get_num_objects_iff}

abbrev small : Layout
small = record { stripe_unit = 4; stripe_count = 3; object_size = 16 }

small-IsValid : IsValid small
small-IsValid = record {
  unit_pos = omega arith;
  count_pos = omega arith;
  size_pos = omega arith;
  whole = refl;
  unit_word = omega arith;
  count_word = omega arith;
  size_word = omega arith;
}

-- Bytes 61 to 70: they begin in the second object set.
mapping-61 : calc_file_object_mapping small 61 10 ≡ record { objno = 3; objoff = 5; xlen = 3 }
unfolding calc_file_object_mapping
mapping-61 = refl

bounds_example :
    (0 < (calc_file_object_mapping small 61 10).xlen)
    × ((calc_file_object_mapping small 61 10).xlen ≤ 10)
    × ((calc_file_object_mapping small 61 10).objoff + (calc_file_object_mapping small 61 10).xlen
        ≤ 16)
    × (61 % 4 + (calc_file_object_mapping small 61 10).xlen ≤ 4)
bounds_example = calc_file_object_mapping_bounds 61 10 small-IsValid (omega arith) (omega arith)

-- A caller that counts the extents it allocates.
abbrev counting : Caller ℕ
counting = record { alloc = λ s. some (s + 1); action = λ ex n s. s }

counting-plenty : (s : ℕ) → counting.alloc s ≢ none
counting-plenty s e = cc

nothing : UpTo small 2 []
nothing = record { passed = tt; sorted = tt }

Built-example :
    ((file_to_extents counting small 2 18 [] 0).0 ≡ ok)
    × Built small 2 18 [] (file_to_extents counting small 2 18 [] 0).1
Built-example =
    file_to_extents-Built counting small-IsValid counting-plenty 2 18 [] 0 (omega arith) nothing

iterate_example :
    (iterate_extents counting small 18 2 18
      (reverse (file_to_extents counting small 2 18 [] 0).1)
      7).0
    ≡ ok
iterate_example =
    iterate-file_to_extents counting counting {l = small} 2 18 [] 0 7 small-IsValid counting-plenty
      (omega arith) nothing

extent_to_file_example :
    (fes : List FileExtent) × (extent_to_file small true 4 3 9 ≡ extents fes)
    × MapsTo small 4 3 9 fes
extent_to_file_example = extent_to_file-MapsTo 4 small-IsValid (omega arith) 3 9 (omega arith)

num_objects_example :
    (4 < get_num_objects small 61)
    ↔ ((off : ℕ) × (off < 61) × ((calc_file_object_mapping small off 1).objno ≡ 4))
num_objects_example = get_num_objects_iff 61 4 small-IsValid (omega arith)
