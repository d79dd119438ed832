-- ===== src/Pagelist.antt =====
-- kernel-modules/src/libceph/pagelist.c and include/linux/ceph/pagelist.h: a growing buffer of pages.
-- A page is the list of its bytes. The list of pages stands with its tail, the page that is mapped,
-- first. `alloc` stands for __page_cache_alloc on a state of the caller's. A copy over the end of a
-- page or to a page that is not there is a fault.
pub mod Contents
pub mod Append
pub mod Reserve
mod Tests
use xcp_ng_ceph_rbd.Base.{
  ℕ, zero, suc, ◌+◌, ◌-◌, ◌*◌, ◌/◌, ◌%◌, ◌^◌, Bool, true, false, not, List, [], ◌∷◌, ◌++◌, Option,
  none, some, length, take, drop, ltb, leb, ◌==◌, if◌then◌else◌,
}
use xcp_ng_ceph_rbd.Crush.Outcome.{Outcome, ok, fault, stuck, ◌>>=◌}

-- PAGE_SIZE.
abbrev pub page_size : ℕ
page_size = 4096

abbrev pub Page : Type 0
Page = List ℕ

-- struct ceph_pagelist; `len` is its length.
pub record PageList : Type 0 where
  pub pages : List Page
  pub len : ℕ
  pub room : ℕ
  pub free_list : List Page
  pub num_pages_free : ℕ

-- 0, -ENOMEM and -EINVAL.
pub data Ret : Type 0 where
  success enomem einval : Ret

-- ceph_pagelist_alloc, with memory.
abbrev pub new : PageList
new = record { pages = []; len = 0; room = 0; free_list = []; num_pages_free = 0 }

abbrev pub Run : Type 0 → Type 0
Run σ = Outcome (Ret × PageList × σ)

abbrev pub Alloc : Type 0 → Type 0
Alloc σ = σ → Option (Page × σ)

-- ceph_pagelist_addpage: the page becomes the tail.
abbrev pub add_tail : Page → PageList → PageList
add_tail page pl = record pl { pages = page ∷ pl.pages; room = pl.room + page_size }

abbrev pub take_reserve : {σ : Type 0} → List Page → PageList → σ → Run σ
take_reserve [] pl s = fault
take_reserve (page ∷ rest) pl s = ok (
  success,
  add_tail page (record pl { free_list = rest; num_pages_free = pl.num_pages_free - 1 }),
  s,
)

abbrev pub take_new : {σ : Type 0} → Option (Page × σ) → PageList → σ → Run σ
take_new none pl s = ok (enomem, pl, s)
take_new (some (page, s')) pl s = ok (success, add_tail page pl, s')

pub addpage : {σ : Type 0} → Alloc σ → PageList → σ → Run σ
addpage alloc pl s =
    if pl.num_pages_free == 0 then take_new (alloc s) pl s else take_reserve pl.free_list pl s

-- memcpy to an offset of the mapped page.
abbrev pub splice : Page → ℕ → List ℕ → Page
splice page off bytes = take off page ++ (bytes ++ drop (off + length bytes) page)

pub copy_tail : List Page → (off : ℕ) → List ℕ → Outcome (List Page)
copy_tail pages off [] = ok pages
copy_tail [] off (byte ∷ bytes) = fault
copy_tail (page ∷ pages) off (byte ∷ bytes) =
    if leb (off + length (byte ∷ bytes)) (length page)
    then ok (splice page off (byte ∷ bytes) ∷ pages)
    else fault

-- memcpy, `length += n` and `room -= n`.
pub fill : PageList → List ℕ → Outcome PageList
fill pl bytes = copy_tail pl.pages (pl.len % page_size) bytes >>= λ pages.
    ok (record pl { pages = pages; len = pl.len + length bytes; room = pl.room - length bytes })

-- An error is returned at once.
abbrev pub and_then : {σ : Type 0} → (PageList → σ → Run σ) → Ret × PageList × σ → Run σ
and_then next (success, pl, s) = next pl s
and_then next (enomem, pl, s) = ok (enomem, pl, s)
and_then next (einval, pl, s) = ok (einval, pl, s)

-- ceph_pagelist_append; each round but the first copies a whole page.
pub append_loop : ℕ → {σ : Type 0} → Alloc σ → PageList → List ℕ → σ → Run σ
append_loop zero alloc pl buf s = stuck
append_loop (suc fuel) alloc pl buf s =
    if ltb pl.room (length buf)
    then (fill pl (take pl.room buf) >>= λ pl'.
        addpage alloc pl' s
        >>= and_then (λ pl'' s'. append_loop fuel alloc pl'' (drop pl.room buf) s'))
    else (fill pl buf >>= λ pl'. ok (success, pl', s))

pub append : {σ : Type 0} → Alloc σ → PageList → List ℕ → σ → Run σ
append alloc pl buf s = append_loop (suc (length buf)) alloc pl buf s

-- ceph_pagelist_encode_64, _32, _16 and _8 append a number of that many bytes, the lowest first.
unfoldable pub le_bytes : ℕ → ℕ → List ℕ
le_bytes zero v = []
le_bytes (suc n) v = v % 256 ∷ le_bytes n (v / 256)

pub encode : (size : ℕ) → {σ : Type 0} → Alloc σ → PageList → ℕ → σ → Run σ
encode size alloc pl v s = append alloc pl (le_bytes size v) s

-- ceph_pagelist_encode_string.
pub encode_string : {σ : Type 0} → Alloc σ → PageList → List ℕ → σ → Run σ
encode_string alloc pl str s =
    encode 4 alloc pl (length str) s
    >>= and_then
        (λ pl' s'. if ltb 0 (length str) then append alloc pl' str s' else ok (success, pl', s'))

-- ceph_pagelist_reserve: the loop until there are `space` free pages.
pub reserve_pages : ℕ → {σ : Type 0} → Alloc σ → PageList → (space : ℕ) → σ → Run σ
reserve_pages zero alloc pl space s = stuck
reserve_pages (suc fuel) alloc pl space s =
    if ltb pl.num_pages_free space
    then (elim (alloc s) [
      | none ↦ ok (enomem, pl, s)
      | some (page, s') ↦
          reserve_pages fuel alloc
            (record pl {
              free_list = pl.free_list ++ (page ∷ []);
              num_pages_free = pl.num_pages_free + 1;
            })
            space s'
    ])
    else ok (success, pl, s)

pub reserve : {σ : Type 0} → Alloc σ → PageList → (space : ℕ) → σ → Run σ
reserve alloc pl space s =
    let pages = (space - pl.room + page_size - 1) % 2 ^ 64 / page_size in
    if leb space pl.room then ok (success, pl, s) else reserve_pages (suc pages) alloc pl pages s

-- ceph_pagelist_free_reserve, with its BUG_ON.
pub free_pages : List Page → (num_pages_free : ℕ) → ℕ
free_pages [] num_pages_free = num_pages_free
free_pages (page ∷ rest) num_pages_free = free_pages rest ((num_pages_free + (2 ^ 64 - 1)) % 2 ^ 64)

pub free_reserve : PageList → Outcome PageList
free_reserve pl =
    let left = free_pages pl.free_list pl.num_pages_free in
    if left == 0 then ok (record pl { free_list = []; num_pages_free = 0 }) else fault

-- struct ceph_pagelist_cursor: which list, its pages up to the tail, and the room.
pub record Cursor : Type 0 where
  pub pl : ℕ
  pub page_lru : ℕ
  pub room : ℕ

-- ceph_pagelist_set_cursor on the list number `id`.
abbrev pub set_cursor : ℕ → PageList → Cursor
set_cursor id pl = record { pl = id; page_lru = length pl.pages; room = pl.room }

-- The loop of ceph_pagelist_truncate.
pub move_back : ℕ → List Page → PageList → Outcome PageList
move_back page_lru [] pl = if page_lru == 0 then ok (record pl { pages = [] }) else fault
move_back page_lru (page ∷ rest) pl =
    let further = move_back page_lru rest (record pl {
      free_list = pl.free_list ++ (page ∷ []);
      num_pages_free = pl.num_pages_free + 1;
    }) in
    if suc (length rest) == page_lru then ok (record pl { pages = page ∷ rest }) else further

-- ceph_pagelist_truncate. It does not touch the length.
pub truncate : ℕ → PageList → Cursor → Outcome (Ret × PageList)
truncate id pl c =
    if not (id == c.pl)
    then ok (einval, pl)
    else (move_back c.page_lru pl.pages pl >>= λ pl'. ok (success, record pl' { room = c.room }))
