-- ===== src/Osdc/Hoids.antt =====
-- hoid_compare is a total order up to the parts of an id that it does not read.
use xcp_ng_ceph_rbd.Osdc.{
  compare_ℕ, compare_ℤ, compare_names, bitwise_key, effective_key, hoid_compare,
}
use xcp_ng_ceph_rbd.Osdc.Order.{
  IsOrder, compare_ℕ-IsOrder, compare_ℤ-IsOrder, on-IsOrder, then_by-IsOrder,
}
use xcp_ng_ceph_rbd.Osdc.Names.{compare_names-IsOrder}

-- hoid_compare is an order of the object ids: the other way round it gives the opposite sign, it is
-- transitive, and ids between which it finds no difference compare alike to every other id.
pub hoid_compare-IsOrder : IsOrder hoid_compare
unfolding hoid_compare
hoid_compare-IsOrder =
    then_by-IsOrder (λ a b. compare_ℕ a.is_max b.is_max) _
      (on-IsOrder (λ a. a.is_max) compare_ℕ compare_ℕ-IsOrder)
      (then_by-IsOrder (λ a b. compare_ℤ a.pool b.pool) _
        (on-IsOrder (λ a. a.pool) compare_ℤ compare_ℤ-IsOrder)
        (then_by-IsOrder (λ a b. compare_ℕ (bitwise_key a) (bitwise_key b)) _
          (on-IsOrder bitwise_key compare_ℕ compare_ℕ-IsOrder)
          (then_by-IsOrder (λ a b. compare_names a.nspace b.nspace) _
            (on-IsOrder (λ a. a.nspace) compare_names compare_names-IsOrder)
            (then_by-IsOrder (λ a b. compare_names (effective_key a) (effective_key b)) _
              (on-IsOrder effective_key compare_names compare_names-IsOrder)
              (then_by-IsOrder (λ a b. compare_names a.oid b.oid)
                (λ a b. compare_ℕ a.snapid b.snapid)
                (on-IsOrder (λ a. a.oid) compare_names compare_names-IsOrder)
                (on-IsOrder (λ a. a.snapid) compare_ℕ compare_ℕ-IsOrder))))))
