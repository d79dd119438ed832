-- ===== src/Pagelist/Reserve.antt =====
-- After a successful ceph_pagelist_reserve, an append of up to that many bytes does not allocate.
use xcp_ng_ceph_rbd.Base.{
  ℕ, zero, suc, ◌+◌, ◌-◌, ◌*◌, ◌/◌, ◌%◌, ◌^◌, ◌≤◌, ◌<◌, ◌≡◌, inl, inr, refl, ap, ◌∙◌, List, [], ◌∷◌,
  ◌++◌, none, some, length, All-append, ltb, leb, if◌then◌else◌, arith, Bool-cases, Option-cases,
  ltb→lt, leb→le, length-append,
}
use mathlib.Core.Path.{subst}
use native.Mathlib.Nat.{mod-eq_of_lt}
use xcp_ng_ceph_rbd.Crush.Outcome.{ok}
use xcp_ng_ceph_rbd.Pagelist.{
  page_size, Page, PageList, Ret, success, enomem, einval, Alloc, reserve_pages, reserve, append,
}
use xcp_ng_ceph_rbd.Pagelist.Contents.{IsWhole, IsValid, contents}
use xcp_ng_ceph_rbd.Pagelist.Append.{GivesPages, Appended, append-Appended}

-- What a reservation of so many pages changes: the free pages.
abbrev Extended : (space : ℕ) → PageList → Ret → PageList → Type 0
Extended space pl success pl' =
    (space ≤ pl'.num_pages_free) × (pl'.room ≡ pl.room) × (contents pl' ≡ contents pl)
Extended space pl enomem pl' =
    (pl.num_pages_free < space) × (pl'.room ≡ pl.room) × (contents pl' ≡ contents pl)
Extended space pl einval pl' = ⊥

Extended-weaken :
    (space : ℕ) (pl pl' : PageList) (ret : Ret) (end : PageList)
    → pl.num_pages_free < space
    → pl'.room ≡ pl.room
    → contents pl' ≡ contents pl
    → Extended space pl' ret end
    → Extended space pl ret end
Extended-weaken space pl pl' success end lt r c (a, r', c') = (a, r' ∙ r, c' ∙ c)
Extended-weaken space pl pl' enomem end lt r c (a, r', c') = (lt, r' ∙ r, c' ∙ c)
Extended-weaken space pl pl' einval end lt r c e = e

module _ {σ : Type 0} (alloc : Alloc σ) (gives : GivesPages alloc) (space : ℕ) where
  abbrev with_free : PageList → Page → PageList
  with_free pl page = record pl {
    free_list = pl.free_list ++ (page ∷ []);
    num_pages_free = pl.num_pages_free + 1;
  }

  with_free-IsValid :
      (pl : PageList) (page : Page) → IsWhole page → IsValid pl → IsValid (with_free pl page)
  with_free-IsValid pl page whole h = record {
    whole = h.whole;
    used = h.used;
    tail_room = h.tail_room;
    spare = All-append IsWhole pl.free_list (page ∷ []) h.spare (whole, tt);
    counted = omega (arith, h.counted, length-append pl.free_list (page ∷ []));
  }

  reserve_step :
      (fuel : ℕ) (pl : PageList) (s : σ)
      → reserve_pages (suc fuel) alloc pl space s ≡ (
          if ltb pl.num_pages_free space
          then (elim (alloc s) [
            | none ↦ ok (enomem, pl, s)
            | some (page, s') ↦ reserve_pages fuel alloc (with_free pl page) space s'
          ])
          else ok (success, pl, s))
  unfolding reserve_pages
  reserve_step fuel pl s = refl

  reserve_pages-Extended :
      (fuel : ℕ) (pl : PageList) (s : σ)
      → IsValid pl
      → 0 < fuel
      → space < pl.num_pages_free + fuel
      → (ret : Ret) × (pl' : PageList) × (s' : σ) × (reserve_pages fuel alloc pl space s
          ≡ ok (ret, pl', s'))
        × IsValid pl'
        × Extended space pl ret pl'
  reserve_pages-Extended zero pl s h some_fuel enough = absurd (omega arith)
  reserve_pages-Extended (suc fuel) pl s h some_fuel enough =
      elim (Bool-cases (ltb pl.num_pages_free space)) [
        | inl p ↦ elim (Option-cases (alloc s)) [
          | inl e ↦
              rw (reserve_step fuel pl s, p, e) (enomem, pl, s, refl, h, (ltb→lt _ _ p, refl, refl))
          | inr ((page, s'), e) ↦
              let (ret, pl', s'', e', v, x) =
                reserve_pages-Extended fuel (with_free pl page) s'
                  (with_free-IsValid pl page (gives s s' page e) h) (omega (arith, ltb→lt _ _ p))
                  (omega arith) in
              rw (reserve_step fuel pl s, p, e)
                (
                  ret,
                  pl',
                  s'',
                  e',
                  v,
                  Extended-weaken space pl (with_free pl page) ret pl' (ltb→lt _ _ p) refl refl x,
                )
        ]
        | inr p ↦
            rw (reserve_step fuel pl s, p) (success, pl, s, refl, h, (ground arith, refl, refl))
      ]

-- How a reservation of `space` bytes ends.
abbrev pub Reserved : (space : ℕ) → PageList → Ret → PageList → Type 0
Reserved space pl success pl' =
    (space ≤ pl'.room + page_size * pl'.num_pages_free) × (contents pl' ≡ contents pl)
Reserved space pl enomem pl' =
    (pl.room + page_size * pl.num_pages_free < space) × (contents pl' ≡ contents pl)
Reserved space pl einval pl' = ⊥

reserved :
    (space : ℕ) (pl : PageList) (ret : Ret) (pl' : PageList)
    → pl.room < space
    → Extended ((space - pl.room + page_size - 1) / page_size) pl ret pl'
    → Reserved space pl ret pl'
reserved space pl success pl' lt (enough, room, c) = (omega arith, c)
reserved space pl enomem pl' lt (few, room, c) = (omega arith, c)
reserved space pl einval pl' lt x = x

-- ceph_pagelist_reserve on a well-formed list always returns, for a space below 2^64 - PAGE_SIZE, and
-- keeps the list well-formed and its bytes the same. Either the tail and the reserve then have room
-- for that space, or they had none before, and it returns -ENOMEM.
pub reserve-Reserved :
    {σ : Type 0} (alloc : Alloc σ) (pl : PageList) (space : ℕ) (s : σ)
    → GivesPages alloc
    → IsValid pl
    → space + page_size < 2 ^ 64
    → (ret : Ret) × (pl' : PageList) × (s' : σ) × (reserve alloc pl space s ≡ ok (ret, pl', s'))
      × IsValid pl'
      × Reserved space pl ret pl'
unfolding reserve
reserve-Reserved alloc pl space s gives h small = elim (Bool-cases (leb space pl.room)) [
  | inl p ↦ rw p (success, pl, s, refl, h, (omega (arith, leb→le _ _ p), refl))
  | inr p ↦
      let (ret, pl', s', e, v, x) =
        reserve_pages-Extended alloc gives ((space - pl.room + page_size - 1) / page_size)
          (suc ((space - pl.room + page_size - 1) / page_size)) pl s h (omega arith)
          (omega arith) in
      rw (p, narrow) (ret, pl', s', e, v, reserved space pl ret pl' (ground arith) x)
]
  where
    narrow : (space - pl.room + page_size - 1) % 2 ^ 64 ≡ space - pl.room + page_size - 1
    narrow = mod-eq_of_lt (omega arith)

-- After a successful ceph_pagelist_reserve of a well-formed list, and whatever the allocator does
-- from then on, ceph_pagelist_append of at most that many bytes succeeds.
pub append-reserve :
    {σ τ : Type 0} (alloc : Alloc σ) (alloc' : Alloc τ) (pl pl' : PageList) (space : ℕ)
    (buf : List ℕ) (s s' : σ) (t : τ)
    → GivesPages alloc
    → GivesPages alloc'
    → IsValid pl
    → space + page_size < 2 ^ 64
    → reserve alloc pl space s ≡ ok (success, pl', s')
    → length buf ≤ space
    → (pl'' : PageList) × (t' : τ) × (append alloc' pl' buf t ≡ ok (success, pl'', t'))
      × IsValid pl''
      × (contents pl'' ≡ contents pl ++ buf)
append-reserve {σ} {τ} alloc alloc' pl pl' space buf s s' t gives gives' h small e le =
    let (ret, end, s'', e', v, r) = reserve-Reserved alloc pl space s gives h small in
    let is_end : end ≡ pl' = cc in
    let is_success : ret ≡ success = cc in
    let v' = subst IsValid is_end v in
    let (enough, same) = fits ret end is_success is_end r in
    let (ret', pl'', t', e'', w, a) = append-Appended alloc' pl' buf t gives' v' in
    all_of ret' pl'' t' e'' w enough same a
  where
    fits :
        (ret : Ret) (end : PageList)
        → ret ≡ success
        → end ≡ pl'
        → Reserved space pl ret end
        → Reserved space pl success pl'
    fits success end is_success is_end r = subst (Reserved space pl success) is_end r
    fits enomem end is_success is_end r = absurd cc
    fits einval end is_success is_end r = absurd cc

    all_of :
        (ret' : Ret) (pl'' : PageList) (t' : τ)
        → append alloc' pl' buf t ≡ ok (ret', pl'', t')
        → IsValid pl''
        → space ≤ pl'.room + page_size * pl'.num_pages_free
        → contents pl' ≡ contents pl
        → Appended pl' buf ret' pl''
        → (end : PageList) × (t'' : τ) × (append alloc' pl' buf t ≡ ok (success, end, t''))
          × IsValid end
          × (contents end ≡ contents pl ++ buf)
    all_of success pl'' t' e'' w enough same a = (pl'', t', e'', w, a ∙ ap (λ c. c ++ buf) same)
    all_of enomem pl'' t' e'' w enough same (more, part) = absurd (omega arith)
    all_of einval pl'' t' e'' w enough same a = absurd a
