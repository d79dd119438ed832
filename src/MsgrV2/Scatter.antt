-- ===== src/MsgrV2/Scatter.antt =====
-- setup_message_sgs of messenger_v2.c: the list of pieces of memory that the cipher runs over. An entry
-- of a page stands with its index, and a loop that runs out of fuel is stuck. The lengths of the
-- pieces that the cursor over the data of a message gives are an argument.
pub mod Entries
pub mod Data
pub mod Whole
use xcp_ng_ceph_rbd.Base.{
  ℕ, zero, suc, ◌+◌, ◌-◌, ◌*◌, ◌/◌, ◌%◌, ◌&&◌, Bool, true, false, List, [], ◌∷◌, ◌++◌, min, not,
  ltb, ◌==◌, if◌then◌else◌,
}
use xcp_ng_ceph_rbd.Crush.Outcome.{Outcome, ok, fault, stuck, ◌>>=◌}
use xcp_ng_ceph_rbd.Pagelist.{page_size}
use xcp_ng_ceph_rbd.MsgrV2.OnWire.{block_len, tag_len, need_padding, padding_len}

-- sg_set_page and sg_set_buf.
pub data Sg : Type 0 where
  on_page : (page off len : ℕ) → Sg
  on_buf : (len : ℕ) → Sg

abbrev pub sg_len : Sg → ℕ
sg_len (on_page page off len) = len
sg_len (on_buf len) = len

-- calc_pages_for, and PAGE_ALIGN(len) >> PAGE_SHIFT for offset 0.
abbrev pub calc_pages_for : (off len : ℕ) → ℕ
calc_pages_for off len = (off + len + page_size - 1) / page_size - off / page_size

-- The last entry, of calc_sg_cnt and of init_sgs.
abbrev pub pad_cnt : (buf_len : ℕ) → ℕ
pad_cnt buf_len = if need_padding buf_len then 1 else 0

abbrev pub pad_sgs : (buf_len : ℕ) → List Sg
pad_sgs buf_len = if need_padding buf_len then on_buf (padding_len buf_len) ∷ [] else []

-- The loop of init_sgs_pages, also that of init_sgs over vmalloc'ed memory.
unfoldable pub page_sgs : (fuel idx off resid : ℕ) → Outcome (List Sg)
page_sgs zero idx off resid = stuck
page_sgs (suc fuel) idx off resid =
    let len = min resid (page_size - off) in
    let rest = page_sgs fuel (suc idx) 0 (resid - len) in
    if resid - len == 0
    then ok (on_page idx off len ∷ [])
    else rest >>= λ sgs. ok (on_page idx off len ∷ sgs)

pub init_sgs_pages : (fuel dpos dlen : ℕ) → Outcome (List Sg)
init_sgs_pages fuel dpos dlen =
    page_sgs fuel (dpos / page_size) (dpos % page_size) dlen >>= λ sgs. ok (sgs ++ pad_sgs dlen)

pub calc_sg_cnt : (is_vmalloc : Bool) → (buf_len : ℕ) → ℕ
calc_sg_cnt is_vmalloc buf_len =
    if buf_len == 0
    then 0
    else pad_cnt buf_len + (if is_vmalloc then calc_pages_for 0 buf_len else 1)

pub init_sgs : (fuel : ℕ) → (is_vmalloc : Bool) → (buf_len : ℕ) → Outcome (List Sg)
init_sgs fuel is_vmalloc buf_len =
    if buf_len == 0
    then ok []
    else if not is_vmalloc
    then ok (on_buf buf_len ∷ pad_sgs buf_len)
    else page_sgs fuel 0 0 buf_len >>= λ sgs. ok (sgs ++ pad_sgs buf_len)

-- The loops of calc_sg_cnt_cursor and init_sgs_cursor. A cursor
-- that has no more pieces, or one that is too long, is a fault.
abbrev pub bvec_cnt : List ℕ → (total_resid : ℕ) → Outcome ℕ
bvec_cnt [] total_resid = fault
bvec_cnt (len ∷ bvecs) total_resid =
    if ltb total_resid len
    then fault
    else if total_resid - len == 0
    then ok 1
    else bvec_cnt bvecs (total_resid - len) >>= λ cnt. ok (suc cnt)

abbrev pub bvec_sgs : List ℕ → (total_resid : ℕ) → Outcome (List Sg)
bvec_sgs [] total_resid = fault
bvec_sgs (len ∷ bvecs) total_resid =
    if ltb total_resid len
    then fault
    else if total_resid - len == 0
    then ok (on_buf len ∷ [])
    else bvec_sgs bvecs (total_resid - len) >>= λ sgs. ok (on_buf len ∷ sgs)

pub calc_sg_cnt_cursor : List ℕ → (data_len : ℕ) → Outcome ℕ
calc_sg_cnt_cursor bvecs data_len =
    if data_len == 0 then ok 0 else bvec_cnt bvecs data_len >>= λ cnt. ok (pad_cnt data_len + cnt)

pub init_sgs_cursor : List ℕ → (data_len : ℕ) → Outcome (List Sg)
init_sgs_cursor bvecs data_len =
    if data_len == 0 then ok [] else bvec_sgs bvecs data_len >>= λ sgs. ok (sgs ++ pad_sgs data_len)

-- Where the data of a message stands: in `pages` from dpos on, or where its cursor goes.
pub data Source : Type 0 where
  pages : (dpos : ℕ) → Source
  cursor : (bvecs : List ℕ) → Source

pub record Message : Type 0 where
  pub front_len : ℕ
  pub front_vmalloc : Bool
  pub middle_len : ℕ
  pub middle_vmalloc : Bool
  pub data_len : ℕ
  pub source : Source

abbrev pub data_cnt : Source → (dlen : ℕ) → Outcome ℕ
data_cnt (pages dpos) dlen = ok (calc_pages_for dpos dlen + pad_cnt dlen)
data_cnt (cursor bvecs) dlen = calc_sg_cnt_cursor bvecs dlen

abbrev pub data_sgs : (fuel : ℕ) → Source → (dlen : ℕ) → Outcome (List Sg)
data_sgs fuel (pages dpos) dlen = init_sgs_pages fuel dpos dlen
data_sgs fuel (cursor bvecs) dlen = init_sgs_cursor bvecs dlen

-- Nothing to do, no memory for the table, or a table of so many entries with those that are set.
pub data Table : Type 0 where
  empty enomem : Table
  table : (sg_cnt : ℕ) → List Sg → Table

-- The count of the entries, with that of the epilogue.
pub message_cnt : Message → Outcome ℕ
message_cnt msg = (if msg.data_len == 0 then ok 0 else data_cnt msg.source msg.data_len) >>= λ cnt.
    ok (
      1
      + calc_sg_cnt msg.front_vmalloc msg.front_len
      + calc_sg_cnt msg.middle_vmalloc msg.middle_len
      + cnt)

pub message_sgs : (fuel : ℕ) → Message → (add_tag : Bool) → Outcome (List Sg)
message_sgs fuel msg add_tag = init_sgs fuel msg.front_vmalloc msg.front_len >>= λ front.
    init_sgs fuel msg.middle_vmalloc msg.middle_len >>= λ middle.
    (if msg.data_len == 0 then ok [] else data_sgs fuel msg.source msg.data_len) >>= λ rest.
    ok (front ++ (middle ++ (rest ++ (on_buf (block_len + (if add_tag then tag_len else 0)) ∷ []))))

-- `alloc` tells whether there is memory for a table of so many entries.
abbrev pub fill_table :
    (alloc : ℕ → Bool) → (fuel : ℕ) → Message → (add_tag : Bool) → ℕ → Outcome Table
fill_table alloc fuel msg add_tag cnt =
    if not (alloc cnt)
    then ok enomem
    else message_sgs fuel msg add_tag >>= λ sgs. ok (table cnt sgs)

pub setup_message_sgs : (alloc : ℕ → Bool) → (fuel : ℕ) → Message → (add_tag : Bool) → Outcome Table
setup_message_sgs alloc fuel msg add_tag =
    if msg.front_len == 0 && (msg.middle_len == 0 && msg.data_len == 0)
    then ok empty
    else message_cnt msg >>= fill_table alloc fuel msg add_tag
