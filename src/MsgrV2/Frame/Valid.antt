-- ===== src/MsgrV2/Frame/Valid.antt =====
-- Which descriptions a peer may send.
use xcp_ng_ceph_rbd.Base.{
  ℕ, zero, suc, length, ◌-◌, ◌^◌, ◌≤◌, ◌<◌, ◌≡◌, ◌≢◌, refl, ap, List, [], ◌∷◌, take, get_or, All,
  arith,
}
use xcp_ng_ceph_rbd.MsgrV2.Frame.{max_control_len, max_data_len, Desc, zero_fill}

-- As many entries as limits, each within its own.
abbrev pub IsWithin : (limits xs : List ℕ) → Type 0
IsWithin [] [] = Unit
IsWithin (limit ∷ limits) (x ∷ xs) = (x ≤ limit) × IsWithin limits xs
IsWithin _ _ = ⊥

-- For the control segment, the front, the middle and the data.
abbrev pub limits : List ℕ
limits = max_control_len ∷ max_control_len ∷ max_control_len ∷ max_data_len ∷ []

abbrev pub IsU16 : ℕ → Type 0
IsU16 n = n < 2 ^ 16

-- One to four segments within their limits, of which the last is not empty; the entries behind it
-- are clear.
pub record IsValid (d : Desc) : Type 0 where
  pub tag_byte : d.tag < 256
  pub any : 1 ≤ d.seg_cnt
  pub few : d.seg_cnt ≤ 4
  pub within : IsWithin limits d.lens
  pub clear_lens : d.lens ≡ zero_fill 4 (take d.seg_cnt d.lens)
  pub clear_aligns : d.aligns ≡ zero_fill 4 (take d.seg_cnt d.aligns)
  pub short_aligns : All IsU16 d.aligns
  pub last_used : get_or d.lens (d.seg_cnt - 1) 0 ≢ 0

pub length-zero_fill : (n : ℕ) (xs : List ℕ) → length (zero_fill n xs) ≡ n
length-zero_fill zero xs = refl
length-zero_fill (suc n) [] = ap suc (length-zero_fill n [])
length-zero_fill (suc n) (x ∷ xs) = ap suc (length-zero_fill n xs)

pub All-zero_fill : (n : ℕ) (xs : List ℕ) → All IsU16 xs → All IsU16 (zero_fill n xs)
All-zero_fill zero xs h = tt
All-zero_fill (suc n) [] h = (omega arith, All-zero_fill n [] tt)
All-zero_fill (suc n) (x ∷ xs) h = (h.0, All-zero_fill n xs h.1)
