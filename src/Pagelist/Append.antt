-- ===== src/Pagelist/Append.antt =====
-- ceph_pagelist_append adds exactly the bytes it is given, or runs out of memory.
use xcp_ng_ceph_rbd.Base.{
  ℕ, zero, suc, ◌+◌, ◌-◌, ◌*◌, ◌≤◌, ◌<◌, ◌≡◌, ◌⊎◌, inl, inr, refl, ap, sym, ◌∙◌, List, [], ◌∷◌,
  ◌++◌, Option, none, some, length, take, drop, All, ltb, ◌==◌, if◌then◌else◌, arith, Bool-cases,
  ltb→lt, ==_iff, append_assoc, take-append_exact, take-length, length-take, length-drop,
  take-append-drop,
}
use xcp_ng_ceph_rbd.Crush.Outcome.{ok, ◌>>=◌}
use xcp_ng_ceph_rbd.Pagelist.{
  page_size, Page, PageList, Ret, success, enomem, einval, Alloc, Run, addpage, add_tail,
  take_reserve, take_new, fill, and_then, append_loop, append,
}
use xcp_ng_ceph_rbd.Pagelist.Contents.{
  IsWhole, IsValid, joined, contents, length-joined, copy_tail-Copied,
}

-- The allocator gives pages of page_size bytes.
abbrev pub GivesPages : {σ : Type 0} → Alloc σ → Type 0
GivesPages {σ} alloc = (s s' : σ) (page : Page) → alloc s ≡ some (page, s') → IsWhole page

fill-IsValid :
    (pl : PageList) (bytes : List ℕ)
    → IsValid pl
    → length bytes ≤ pl.room
    → (pl' : PageList) × (fill pl bytes ≡ ok pl')
      × IsValid pl'
      × (pl'.len ≡ pl.len + length bytes)
      × (pl'.room ≡ pl.room - length bytes)
      × (pl'.num_pages_free ≡ pl.num_pages_free)
      × (contents pl' ≡ contents pl ++ bytes)
unfolding fill
fill-IsValid pl bytes h le =
    let (pages, e, (whole, same, more)) =
      copy_tail-Copied pl.pages bytes pl.len pl.room h.whole h.used h.tail_room le in
    rw e (
      record pl { pages = pages; len = pl.len + length bytes; room = pl.room - length bytes },
      refl,
      record {
        whole = whole;
        used = omega (arith, h.used, same);
        tail_room = omega (arith, h.tail_room);
        spare = h.spare;
        counted = h.counted;
      },
      refl,
      refl,
      refl,
      more,
    )

-- What a new page, from the reserve or else from the allocator, changes.
abbrev Added : PageList → PageList → Type 0
Added pl pl' =
    IsValid pl'
    × (pl'.len ≡ pl.len)
    × (pl'.room ≡ page_size)
    × (pl.num_pages_free ≤ pl'.num_pages_free + 1)
    × (contents pl' ≡ contents pl)

module _ {σ : Type 0} (alloc : Alloc σ) (gives : GivesPages alloc) where
  add_tail-Added :
      (pl : PageList) (page : Page)
      → IsValid pl
      → pl.room ≡ 0
      → IsWhole page
      → IsValid (add_tail page pl) × (contents (add_tail page pl) ≡ contents pl)
  add_tail-Added pl page h full whole = (
    record {
      whole = (whole, h.whole);
      used = omega (arith, h.used);
      tail_room = omega arith;
      spare = h.spare;
      counted = h.counted;
    },
    ap (λ n. take n (joined pl.pages ++ page)) at
        ∙ take-append_exact (joined pl.pages) page
        ∙ sym (take-length (joined pl.pages))
        ∙ ap (λ n. take n (joined pl.pages)) (sym at),
  )
    where
      at : pl.len ≡ length (joined pl.pages)
      at = omega (arith, h.used, length-joined pl.pages h.whole)

  -- The new page comes from a pool that keeps the rest of the list well-formed.
  new_page :
      (pl : PageList) (answer : Option (Page × σ)) (s : σ)
      → ((page : Page) (s' : σ) → answer ≡ some (page, s') → IsWhole page)
      → IsValid pl
      → pl.room ≡ 0
      → ((pl' : PageList) × (s' : σ) × (take_new answer pl s ≡ ok (success, pl', s'))
          × Added pl pl')
        ⊎ (take_new answer pl s ≡ ok (enomem, pl, s))
  new_page pl none s whole h full = inr refl
  new_page pl (some (page, s')) s whole h full =
      let (v, c) = add_tail-Added pl page h full (whole page s' refl) in
      inl (add_tail page pl, s', refl, (v, refl, omega arith, omega arith, c))

  reserved_page :
      (pl : PageList) (free : List Page) (s : σ)
      → pl.num_pages_free ≡ length free
      → 0 < length free
      → All IsWhole free
      → IsValid pl
      → pl.room ≡ 0
      → (pl' : PageList) × (take_reserve free pl s ≡ ok (success, pl', s)) × Added pl pl'
  reserved_page pl [] s n lt spare h full = absurd (omega arith)
  reserved_page pl (page ∷ rest) s n lt (whole, spare) h full =
      let (v, c) =
        add_tail-Added (record pl { free_list = rest; num_pages_free = pl.num_pages_free - 1 }) page
          (record {
            whole = h.whole;
            used = h.used;
            tail_room = h.tail_room;
            spare = spare;
            counted = omega arith;
          })
          full whole in
      (
        add_tail page (record pl { free_list = rest; num_pages_free = pl.num_pages_free - 1 }),
        refl,
        (v, refl, omega arith, omega arith, c),
      )

  addpage-Added :
      (pl : PageList) (s : σ)
      → IsValid pl
      → pl.room ≡ 0
      → ((pl' : PageList) × (s' : σ) × (addpage alloc pl s ≡ ok (success, pl', s')) × Added pl pl')
        ⊎ ((addpage alloc pl s ≡ ok (enomem, pl, s)) × (pl.num_pages_free ≡ 0))
  unfolding addpage
  addpage-Added pl s h full = elim (Bool-cases (pl.num_pages_free == 0)) [
    | inl p ↦ rw p (elim (new_page pl (alloc s) s (λ page s' e. gives s s' page e) h full) [
      | inl x ↦ inl x
      | inr e ↦ inr (e, (==_iff pl.num_pages_free 0).0 p)
    ])
    | inr p ↦
        let (pl', e, a) =
          reserved_page pl pl.free_list s h.counted (ground (arith, h.counted)) h.spare h full in
        rw p (inl (pl', s, e, a))
  ]

-- How an append of `buf` to `pl` ends: with all of it, or out of memory, which takes more bytes than
-- the tail and the reserve have room for, with a part of it.
abbrev pub Appended : PageList → List ℕ → Ret → PageList → Type 0
Appended pl buf success pl' = contents pl' ≡ contents pl ++ buf
Appended pl buf enomem pl' =
    (pl.room + page_size * pl.num_pages_free < length buf)
    × ((n : ℕ) × (n < length buf) × (contents pl' ≡ contents pl ++ take n buf))
Appended pl buf einval pl' = ⊥

take_nil : (n : ℕ) → take {A = ℕ} n [] ≡ []
take_nil zero = refl
take_nil (suc n) = refl

take-drop_over :
    (room n : ℕ) (buf : List ℕ) → take room buf ++ take n (drop room buf) ≡ take (room + n) buf
take-drop_over zero n buf = ap (λ m. take m buf) (omega arith)
take-drop_over (suc room) n [] = take_nil n ∙ sym (take_nil (suc room + n))
take-drop_over (suc room) n (x ∷ buf) =
    ap (λ t. x ∷ t) (take-drop_over room n buf) ∙ ap (λ m. take m (x ∷ buf)) (shift room n)
  where
    shift : (a b : ℕ) → suc (a + b) ≡ suc a + b
    shift a b = omega arith

-- A round with the rest of the tail, and a page more.
passed :
    (pl pl' : PageList) (buf : List ℕ) (ret : Ret) (end : PageList)
    → pl.room < length buf
    → contents pl' ≡ contents pl ++ take pl.room buf
    → pl'.room ≡ page_size
    → pl.num_pages_free ≤ pl'.num_pages_free + 1
    → Appended pl' (drop pl.room buf) ret end
    → Appended pl buf ret end
passed pl pl' buf success end lt c room free a =
    a
    ∙ ap (λ t. t ++ drop pl.room buf) c
    ∙ append_assoc (contents pl) (take pl.room buf) (drop pl.room buf)
    ∙ ap (λ t. contents pl ++ t) (take-append-drop pl.room buf)
passed pl pl' buf enomem end lt c room free (more, (n, lt', a)) = (
  omega (arith, length-drop pl.room buf),
  (
    pl.room + n,
    omega (arith, length-drop pl.room buf),
    a
        ∙ ap (λ t. t ++ take n (drop pl.room buf)) c
        ∙ append_assoc (contents pl) (take pl.room buf) (take n (drop pl.room buf))
        ∙ ap (λ t. contents pl ++ t) (take-drop_over pl.room n buf),
  ),
)
passed pl pl' buf einval end lt c room free a = a

module _ {σ : Type 0} (alloc : Alloc σ) (gives : GivesPages alloc) where
  append_step :
      (fuel : ℕ) (pl : PageList) (buf : List ℕ) (s : σ)
      → append_loop (suc fuel) alloc pl buf s ≡ (
          if ltb pl.room (length buf)
          then (fill pl (take pl.room buf) >>= λ pl'.
              addpage alloc pl' s
              >>= and_then (λ pl'' s'. append_loop fuel alloc pl'' (drop pl.room buf) s'))
          else (fill pl buf >>= λ pl'. ok (success, pl', s)))
  unfolding append_loop
  append_step fuel pl buf s = refl

  -- The end of a loop on a well-formed list.
  abbrev Ended : PageList → List ℕ → Run σ → Type 0
  Ended pl buf r =
      (ret : Ret) × (pl' : PageList) × (s' : σ) × (r ≡ ok (ret, pl', s'))
      × IsValid pl'
      × Appended pl buf ret pl'

  -- The rest of a round whose copy gave `mid`.
  round-Ended :
      (next : PageList → σ → Run σ) (pl mid : PageList) (buf : List ℕ) (s : σ)
      → pl.room < length buf
      → IsValid mid
      → mid.room ≡ 0
      → mid.num_pages_free ≡ pl.num_pages_free
      → contents mid ≡ contents pl ++ take pl.room buf
      → ((pl' : PageList) (s' : σ)
          → IsValid pl'
          → pl'.room ≡ page_size
          → Ended pl' (drop pl.room buf) (next pl' s'))
      → Ended pl buf (addpage alloc mid s >>= and_then next)
  round-Ended next pl mid buf s lt h room free c rest =
      elim (addpage-Added alloc gives mid s h room) [
        | inl (pl', s', e, (v, len, room', free', c')) ↦
            let (ret, end, s'', e', v', a) = rest pl' s' v room' in
            rw e
              (ret, end, s'', e', v', passed pl pl' buf ret end lt (c' ∙ c) room' (omega arith) a)
        | inr (e, zero_free) ↦ rw e (enomem, mid, s, refl, h, (omega arith, (pl.room, lt, c)))
      ]

  append_loop-Ended :
      (fuel : ℕ) (pl : PageList) (buf : List ℕ) (s : σ)
      → IsValid pl
      → 0 < fuel
      → length buf + page_size ≤ pl.room + page_size * fuel
      → Ended pl buf (append_loop fuel alloc pl buf s)
  append_loop-Ended zero pl buf s h some_fuel le = absurd (omega arith)
  append_loop-Ended (suc fuel) pl buf s h some_fuel le =
      elim (Bool-cases (ltb pl.room (length buf))) [
        | inl p ↦
            let (mid, e, v, len, room, free, c) =
              fill-IsValid pl (take pl.room buf) h (omega (arith, length-take pl.room buf)) in
            rw (append_step fuel pl buf s, p, e)
              (round-Ended (λ pl' s'. append_loop fuel alloc pl' (drop pl.room buf) s') pl mid buf s
                (ltb→lt _ _ p) v (omega (arith, length-take pl.room buf, ltb→lt _ _ p)) free c
                (λ pl' s' v' room'.
                  append_loop-Ended fuel pl' (drop pl.room buf) s' v' (omega (arith, ltb→lt _ _ p))
                    (omega (arith, length-drop pl.room buf, ltb→lt _ _ p))))
        | inr p ↦
            let (pl', e, v, len, room, free, c) = fill-IsValid pl buf h (ground arith) in
            rw (append_step fuel pl buf s, p, e) (success, pl', s, refl, v, c)
      ]

-- ceph_pagelist_append to a well-formed list always returns, copies within pages only, and leaves a
-- well-formed list. Either it succeeds and the list's bytes grew by exactly those of the buffer; or
-- the bytes did not fit into the tail and the reserved pages, it returns -ENOMEM, and the list's
-- bytes grew by a proper part of the buffer, its beginning.
pub append-Appended :
    {σ : Type 0} (alloc : Alloc σ) (pl : PageList) (buf : List ℕ) (s : σ)
    → GivesPages alloc
    → IsValid pl
    → (ret : Ret) × (pl' : PageList) × (s' : σ) × (append alloc pl buf s ≡ ok (ret, pl', s'))
      × IsValid pl'
      × Appended pl buf ret pl'
unfolding append
append-Appended alloc pl buf s gives h =
    append_loop-Ended alloc gives (suc (length buf)) pl buf s h (omega arith) (omega arith)
