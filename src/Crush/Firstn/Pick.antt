-- ===== src/Crush/Firstn/Pick.antt =====
-- The choice of an item in a bucket of a well-formed map always succeeds.
use xcp_ng_ceph_rbd.Base.{
  ℕ, ◌/◌, ◌<◌, ◌≡◌, inl, inr, refl, ap, sym, ◌∙◌, ◌&&◌, List, Option, none, some, ltb, leb,
  if◌then◌else◌, ℤ, negsuc, Bool-cases,
}
use mathlib.Core.Path.{subst}
use xcp_ng_ceph_rbd.Crush.Outcome.{Outcome, ok, ◌>>=◌}
use xcp_ng_ceph_rbd.Crush.Map.{
  Bucket, size, CrushMap, ChooseArg, WorkBucket, Work, work_at, put_work,
}
use xcp_ng_ceph_rbd.Crush.Bucket.{perm_choose, bucket_choose}
use xcp_ng_ceph_rbd.Crush.Bucket.Perm.{Fits}
use xcp_ng_ceph_rbd.Crush.Bucket.Member.{
  ArgFits, HasItem, Chooses, perm_choose-Chooses, bucket_choose-Chooses,
}
use xcp_ng_ceph_rbd.Crush.Fits.{
  IsBucket, MapFits, WorkFits, ArgsFit, work_at-WorkFits, put_work-WorkFits,
}
use xcp_ng_ceph_rbd.Crush.Firstn.{Args, choose_arg_at, pick}

abbrev pub Picks : CrushMap → Bucket → Outcome (ℤ × Work) → Type 0
Picks m b r = (item : ℤ) × (w : Work) × (r ≡ ok (item, w)) × HasItem b item × WorkFits m w

pub choose_arg_at-ArgFits :
    (m : CrushMap) (args : Option (List ChooseArg)) (n : ℕ) (b : Bucket)
    → IsBucket m n b
    → ArgsFit m args
    → (arg : Option ChooseArg) × (choose_arg_at args (negsuc n) ≡ ok arg) × ArgFits (size b) arg
unfolding choose_arg_at
choose_arg_at-ArgFits m none n b e g = (none, refl, tt)
choose_arg_at-ArgFits m (some args) n b e g = let (arg, at, f) = g n b e in (some arg, rw at, f)

module _ {m : CrushMap} {rank : ℕ → ℕ} {depth width : ℕ} (fits : MapFits m rank depth width)
    (a : Args) (g : ArgsFit m a.choose_args) (n : ℕ) (b : Bucket) (e : IsBucket m n b)
    (full : 0 < size b) where
  by_method :
      (wb : WorkBucket) (r position : ℕ)
      → Fits b wb
      → Chooses b
          (choose_arg_at a.choose_args b.id >>= λ arg. bucket_choose b wb a.x r arg position)
  by_method wb r position f =
      let (arg, at, ga) = choose_arg_at-ArgFits m a.choose_args n b e g in
      rw (ap (choose_arg_at a.choose_args) (fits.ids n b e) ∙ at)
        (bucket_choose-Chooses b wb a.x r arg position full (fits.arrays n b e) ga f)

  pub pick-Picks :
      (flocal outpos r : ℕ) (w : Work) → WorkFits m w → Picks m b (pick a b flocal outpos r w)
  unfolding pick
  pick-Picks flocal outpos r w works =
      let (wb, ew, fw) = works n b e in
      let at : work_at w b.id ≡ ok wb =
        ap (work_at w) (fits.ids n b e) ∙ work_at-WorkFits w n wb ew in
      let exhaustive =
        ltb 0 a.local_fallback_retries
        && (leb (size b / 2) flocal && ltb a.local_fallback_retries flocal) in
      let chosen : Chooses b (
          if exhaustive
          then perm_choose b wb a.x r
          else (choose_arg_at a.choose_args b.id >>= λ arg. bucket_choose b wb a.x r arg outpos)) =
        elim (Bool-cases exhaustive) [
          | inl t ↦ rw t (perm_choose-Chooses b wb a.x r full fw)
          | inr t ↦ rw t (by_method wb r outpos fw)
        ] in
      let (item, wb', eq, has, f') = chosen in
      (
        item,
        put_work w b.id wb',
        rw (at, eq),
        has,
        subst (λ k. WorkFits m (put_work w k wb')) (sym (fits.ids n b e))
            (put_work-WorkFits m w n b wb' e f' works),
      )
