-- ===== src/StrHash/Tests.antt =====
-- The hashes of a short name.
use xcp_ng_ceph_rbd.Base.{◌≡◌, [], ◌∷◌}
use xcp_ng_ceph_rbd.StrHash.{str_hash_linux}
use xcp_ng_ceph_rbd.StrHash.Width.{narrow_from, str_hash_linux-narrow_from}

str_hash_linux-narrow_from_example :
    str_hash_linux (114 ∷ 98 ∷ 100 ∷ []) ≡ narrow_from 0 (114 ∷ 98 ∷ 100 ∷ [])
str_hash_linux-narrow_from_example = str_hash_linux-narrow_from (114 ∷ 98 ∷ 100 ∷ [])
