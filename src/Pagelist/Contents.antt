-- ===== src/Pagelist/Contents.antt =====
-- What a page list holds, when it is well-formed, and what a copy to its tail does.
use xcp_ng_ceph_rbd.Base.{
  ℕ, suc, ◌+◌, ◌-◌, ◌*◌, ◌%◌, ◌≤◌, ◌≡◌, refl, ap, sym, ◌∙◌, List, [], ◌∷◌, ◌++◌, true, length, take,
  drop, All, leb, arith, length-append, take-append_over, take-append_exact, append-nil,
  append_assoc, length-take, length-drop,
}
use mathlib.Core.Path.{subst}
use xcp_ng_ceph_rbd.Crush.Outcome.{ok}
use xcp_ng_ceph_rbd.Pagelist.{page_size, Page, PageList, splice, copy_tail}

abbrev pub IsWhole : Page → Type 0
IsWhole page = length page ≡ page_size

-- Each page has page_size bytes, all pages but the rest of the tail are in use, and the free pages
-- are counted.
pub record IsValid (pl : PageList) : Type 0 where
  pub whole : All IsWhole pl.pages
  pub used : pl.len + pl.room ≡ page_size * length pl.pages
  pub tail_room : pl.room ≤ page_size
  pub spare : All IsWhole pl.free_list
  pub counted : pl.num_pages_free ≡ length pl.free_list

abbrev pub joined : List Page → List ℕ
joined [] = []
joined (page ∷ pages) = joined pages ++ page

-- The bytes of the list.
abbrev pub contents : PageList → List ℕ
contents pl = take pl.len (joined pl.pages)

pub length-joined :
    (pages : List Page) → All IsWhole pages → length (joined pages) ≡ page_size * length pages
length-joined [] h = refl
length-joined (page ∷ pages) h =
    omega (arith, length-append (joined pages) page, length-joined pages h.1, h.0)

length-splice :
    (page : Page) (off : ℕ) (bytes : List ℕ)
    → off + length bytes ≤ length page
    → length (splice page off bytes) ≡ length page
length-splice page off bytes h = omega (
  arith,
  length-append (take off page) (bytes ++ drop (off + length bytes) page),
  length-append bytes (drop (off + length bytes) page),
  length-take off page,
  length-drop (off + length bytes) page,
)

take-splice :
    (page : Page) (off : ℕ) (bytes : List ℕ)
    → off ≤ length page
    → take (off + length bytes) (splice page off bytes) ≡ take off page ++ bytes
take-splice page off bytes h =
    ap (λ n. take (n + length bytes) (splice page off bytes)) at
    ∙ take-append_over (take off page) (bytes ++ drop (off + length bytes) page) (length bytes)
    ∙ ap (λ t. take off page ++ t) (take-append_exact bytes (drop (off + length bytes) page))
  where
    at : off ≡ length (take off page)
    at = omega (arith, length-take off page)

-- Where a copy to the tail of a well-formed list goes, as long as there is room.
abbrev pub Copied : (pages : List Page) (len : ℕ) (bytes : List ℕ) (pages' : List Page) → Type 0
Copied pages len bytes pages' =
    All IsWhole pages'
    × (length pages' ≡ length pages)
    × (take (len + length bytes) (joined pages') ≡ take len (joined pages) ++ bytes)

copied :
    (page : Page) (pages : List Page) (off : ℕ) (bytes : List ℕ)
    → All IsWhole (page ∷ pages)
    → off + length bytes ≤ page_size
    → Copied (page ∷ pages) (length (joined pages) + off) bytes (splice page off bytes ∷ pages)
copied page pages off bytes h le = (
  (omega (arith, length-splice page off bytes (omega (arith, h.0)), h.0), h.1),
  refl,
  ap (λ n. take n (joined pages ++ splice page off bytes)) assoc
      ∙ take-append_over (joined pages) (splice page off bytes) (off + length bytes)
      ∙ ap (λ t. joined pages ++ t) (take-splice page off bytes (omega (arith, h.0)))
      ∙ sym (append_assoc (joined pages) (take off page) bytes)
      ∙ ap (λ t. t ++ bytes) (sym (take-append_over (joined pages) page off)),
)
  where
    assoc :
        length (joined pages) + off + length bytes ≡ length (joined pages) + (off + length bytes)
    assoc = omega arith

pub copy_tail-Copied :
    (pages : List Page) (bytes : List ℕ) (len room : ℕ)
    → All IsWhole pages
    → len + room ≡ page_size * length pages
    → room ≤ page_size
    → length bytes ≤ room
    → (pages' : List Page) × (copy_tail pages (len % page_size) bytes ≡ ok pages')
      × Copied pages len bytes pages'
unfolding copy_tail
copy_tail-Copied pages [] len room h used low le = (
  pages,
  refl,
  (
    h,
    refl,
    ap (λ n. take n (joined pages)) (omega arith) ∙ sym (append-nil (take len (joined pages))),
  ),
)
copy_tail-Copied [] (byte ∷ bytes) len room h used low le = absurd (omega arith)
copy_tail-Copied (page ∷ pages) (byte ∷ bytes) len room h used low le =
    rw (offset, lt_true)
      (
        splice page (page_size - room) (byte ∷ bytes) ∷ pages,
        refl,
        subst
            (λ n.
              Copied (page ∷ pages) n (byte ∷ bytes)
                (splice page (page_size - room) (byte ∷ bytes) ∷ pages))
            (sym place) (copied page pages (page_size - room) (byte ∷ bytes) h (omega arith)),
      )
  where
    place : len ≡ length (joined pages) + (page_size - room)
    place = omega (arith, length-joined pages h.1)

    offset : len % page_size ≡ page_size - room
    offset = omega arith

    lt_true : leb (page_size - room + suc (length bytes)) (length page) ≡ true
    lt_true = ground (arith, h.0)
