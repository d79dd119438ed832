-- ===== src/Rbd/Tests.antt =====
-- The request handling of kernel-modules/src/rbd/rbd.c at small requests.
use xcp_ng_ceph_rbd.Base.{
  ℤ, ◌≢◌, Option, List, ℕ, ◌<◌, ◌≡◌, ◌↔◌, refl, true, List, [], ◌∷◌, none, some, length, pos,
  negsuc, arith,
}
use xcp_ng_ceph_rbd.Crush.Outcome.{ok}
use xcp_ng_ceph_rbd.Striper.Layout.{Layout}
use xcp_ng_ceph_rbd.Striper.FileExtents.{
  FileExtent, extent_to_file, reverse_map, num_file_extents, file_extent,
}
use xcp_ng_ceph_rbd.Rbd.Image.{one_waits, one_ended, one_failed, here, Ended, img_advance-Ended}
use xcp_ng_ceph_rbd.Rbd.Extents.{
  prune_extents, file_extents_bytes, calc_img_extents, Covers, prune_extents_iff,
}
use xcp_ng_ceph_rbd.Rbd.Read.{Calls, got, read_all}
use xcp_ng_ceph_rbd.Rbd.Read.Fills.{absent, answer_of, content, Fills, new_read, read_all-Fills}

-- Three object requests, of which the second ends at once and the third fails when it is started.
abbrev three_requests : List (Option ℤ)
three_requests = none ∷ some (pos 0) ∷ some (negsuc 4) ∷ []

five_is_error : negsuc 4 ≢ pos 0
five_is_error e = cc

img_advance-Ended_example : Ended three_requests (negsuc 1 ∷ []) (negsuc 4)
img_advance-Ended_example =
    img_advance-Ended three_requests (negsuc 1 ∷ []) 1 (negsuc 4) (negsuc 4)
      (one_waits (one_ended (one_failed (negsuc 4) five_is_error))) refl
      (here (negsuc 4) five_is_error)

abbrev small : Layout
small = record { stripe_unit = 4; stripe_count = 3; object_size = 16 }

-- A clone whose parent has the first 14 bytes.
abbrev clone : Calls
clone = record {
  layout = small;
  parent_overlap = 14;
  memory = true;
  may_exist = true;
  read_object = pos 0;
  read_parent = pos 0;
}

abbrev parts : List FileExtent
parts = record { off = 2; len = 2 } ∷ record { off = 12; len = 2 } ∷ []

parts_found : calc_img_extents small true 14 0 2 6 ≡ ok (pos 0, parts)
unfolding calc_img_extents prune_extents extent_to_file reverse_map num_file_extents file_extent
parts_found = refl

abbrev four_bytes : List ℕ
four_bytes = 5 ∷ 6 ∷ 7 ∷ 8 ∷ []

parts_bytes : length four_bytes ≡ file_extents_bytes parts
unfolding file_extents_bytes
parts_bytes = refl

read_all-Fills_example :
    Fills
      (read_all clone
        (answer_of absent)
        (got four_bytes)
        (new_read 0 2 6 (9 ∷ 9 ∷ 9 ∷ 9 ∷ 9 ∷ 9 ∷ [])))
      (content parts absent four_bytes 6)
read_all-Fills_example =
    read_all-Fills clone 0 2 6 (9 ∷ 9 ∷ 9 ∷ 9 ∷ 9 ∷ 9 ∷ []) parts absent four_bytes refl refl
      parts_found refl (omega arith) tt parts_bytes (omega arith)

abbrev uncut : List FileExtent
uncut = record { off = 2; len = 2 } ∷ record { off = 12; len = 4 } ∷ []

prune_extents_iff_example : Covers 13 (prune_extents uncut 14) ↔ (Covers 13 uncut × (13 < 14))
prune_extents_iff_example =
    prune_extents_iff 13 0 14 uncut (omega arith, omega arith, (omega arith, omega arith, tt))
