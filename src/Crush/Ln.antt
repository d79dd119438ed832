-- ===== src/Crush/Ln.antt =====
-- crush_ln of kernel-modules/src/libceph/crush/mapper.c: 2^44 * log2(input + 1).
use xcp_ng_ceph_rbd.Base.{
  ℕ, zero, suc, ◌+◌, ◌-◌, ◌*◌, ◌/◌, ◌%◌, ◌^◌, leb, ltb, if◌then◌else◌, get_or, u64,
}
use xcp_ng_ceph_rbd.Crush.LnTables.{rh_lh_tbl, ll_tbl}

-- `__builtin_clz` of a `width`-bit word other than 0.
abbrev pub clz : ℕ → ℕ → ℕ
clz zero x = 0
clz (suc width) x = let rest = suc (clz width x) in if leb (2 ^ width) x then 0 else rest

-- For `xin` up to 0xffff, as the caller masks it: `x` is at most 0x10000, so `x & 0x18000` is 0
-- when `x` is below 0x8000.
pub crush_ln : ℕ → ℕ
crush_ln xin =
    let x₀ = xin + 1 in
    let bits = if ltb x₀ 0x8000 then clz 32 (x₀ % 2 ^ 17) - 16 else 0 in
    let x = x₀ * 2 ^ bits in
    let iexpon = 15 - bits in
    let index1 = x / 2 ^ 8 * 2 in
    let rh = get_or rh_lh_tbl (index1 - 256) 0 in
    let lh = get_or rh_lh_tbl (index1 + 1 - 256) 0 in
    let xl64 = u64 (x * rh) / 2 ^ 48 in
    let ll = get_or ll_tbl (xl64 % 2 ^ 8) 0 in iexpon * 2 ^ 44 + (lh + ll) / 2 ^ 4
