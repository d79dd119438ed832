-- ===== src/Pagelist/Tests.antt =====
-- Bytes into an empty page list of kernel-modules/src/libceph/pagelist.c, with one page of memory.
use xcp_ng_ceph_rbd.Base.{
  ℕ, zero, suc, ◌≡◌, refl, [], ◌∷◌, ◌++◌, Option, none, some, replicate, length-replicate, arith,
}
use xcp_ng_ceph_rbd.Crush.Outcome.{ok}
use xcp_ng_ceph_rbd.Pagelist.{
  page_size, Page, PageList, Ret, success, new, append, reserve, reserve_pages,
}
use xcp_ng_ceph_rbd.Pagelist.Contents.{IsWhole, IsValid, contents}
use xcp_ng_ceph_rbd.Pagelist.Append.{Appended, append-Appended}
use xcp_ng_ceph_rbd.Pagelist.Reserve.{Reserved, reserve-Reserved, append-reserve}

abbrev zeros : Page
zeros = replicate page_size 0

-- An allocator with `n` pages left.
abbrev pages_left : ℕ → Option (Page × ℕ)
pages_left zero = none
pages_left (suc n) = some (zeros, n)

gives-IsWhole : (s s' : ℕ) (page : Page) → pages_left s ≡ some (page, s') → IsWhole page
gives-IsWhole zero s' page e = absurd cc
gives-IsWhole (suc n) s' page e =
    let same : zeros ≡ page = cc in rw (← same) (length-replicate page_size zero)

new-IsValid : IsValid new
new-IsValid = record {
  whole = tt;
  used = refl;
  tail_room = omega arith;
  spare = tt;
  counted = refl;
}

append-Appended_example :
    (ret : Ret) × (pl' : PageList) × (s' : ℕ) × (append pages_left new (7 ∷ 8 ∷ 9 ∷ []) 1
      ≡ ok (ret, pl', s'))
    × IsValid pl'
    × Appended new (7 ∷ 8 ∷ 9 ∷ []) ret pl'
append-Appended_example =
    append-Appended pages_left new (7 ∷ 8 ∷ 9 ∷ []) 1 gives-IsWhole new-IsValid

reserve-Reserved_example :
    (ret : Ret) × (pl' : PageList) × (s' : ℕ) × (reserve pages_left new 5000 1 ≡ ok (ret, pl', s'))
    × IsValid pl'
    × Reserved 5000 new ret pl'
reserve-Reserved_example =
    reserve-Reserved pages_left new 5000 1 gives-IsWhole new-IsValid (omega arith)

abbrev one_page : PageList
one_page = record { pages = []; len = 0; room = 0; free_list = zeros ∷ []; num_pages_free = 1 }

reserved_one : reserve pages_left new 4000 1 ≡ ok (success, one_page, 0)
unfolding reserve reserve_pages
reserved_one = refl

append-reserve_example :
    (pl' : PageList) × (t' : ℕ) × (append pages_left one_page (7 ∷ 8 ∷ []) 0
      ≡ ok (success, pl', t'))
    × IsValid pl'
    × (contents pl' ≡ contents new ++ (7 ∷ 8 ∷ []))
append-reserve_example =
    append-reserve pages_left pages_left new one_page 4000 (7 ∷ 8 ∷ []) 1 0 0 gives-IsWhole
      gives-IsWhole new-IsValid (omega arith) reserved_one (omega arith)
