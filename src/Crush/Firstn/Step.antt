-- ===== src/Crush/Firstn/Step.antt =====
-- One round of the search for a replica always goes well in a well-formed map.
use xcp_ng_ceph_rbd.Base.{
  ℕ, zero, suc, ◌+◌, ◌-◌, ◌/◌, ◌^◌, ◌<◌, ◌≡◌, ◌≢◌, ◌⊎◌, inl, inr, refl, ap, ◌∙◌, Bool, true, false,
  List, [], ◌∷◌, none, some, length, get_elem?, ltb, leb, ◌==◌, if◌then◌else◌, ℤ, pos, negsuc,
  eqb_ℤ, eqb_ℤ_iff, arith, Bool-cases, Option-cases, u32, ◌%◌,
}
use xcp_ng_ceph_rbd.Crush.Outcome.{Outcome, ok, ◌>>=◌}
use xcp_ng_ceph_rbd.Crush.Hash.{hash32_2}
use xcp_ng_ceph_rbd.Crush.Map.{Bucket, size, CrushMap, Work, bucket_at}
use xcp_ng_ceph_rbd.Crush.Bucket.{is_out}
use xcp_ng_ceph_rbd.Crush.Fits.{IsBucket, MapFits, WorkFits, ArgsFit, ItemFits, bucket_at-IsBucket}
use xcp_ng_ceph_rbd.Crush.Firstn.{
  Args, Leaf, Search, Progress, again, skip, got, retry, item_type, collides, Found, no_leaf, leaf,
  last?, find_leaf, check_out, accept, examine, is_bad_item, is_no_bucket, search_step,
}
use xcp_ng_ceph_rbd.Crush.Firstn.Pick.{pick-Picks}
use xcp_ng_ceph_rbd.Crush.Firstn.Ends.{local_bound, cost, Within, Reached, retry-Reached}

collides-ne :
    (item : ℤ) (out : List ℤ) → collides item out ≡ false → (o : ℕ) → get_elem? out o ≢ some item
collides-ne item [] h o e = cc
collides-ne item (x ∷ out) h zero e = ground (arith, (eqb_ℤ_iff x item).1)
collides-ne item (x ∷ out) h (suc o) e = collides-ne item out (ground arith) o e

is_out-device : (weight : List ℕ) (d x : ℕ) → (t : Bool) × (is_out weight (pos d) x ≡ ok t)
unfolding is_out
is_out-device weight d x = elim (Option-cases (get_elem? weight d)) [
  | inl e ↦ rw (e, is_out) (true, refl)
  | inr (v, e) ↦
      rw (e, is_out)
        (elim (Bool-cases (leb 0x10000 v)) [
          | inl t ↦ rw t (false, refl)
          | inr t ↦ elim (Bool-cases (v == 0)) [
            | inl u ↦ rw (t, u) (true, refl)
            | inr u ↦ elim (Bool-cases (ltb (hash32_2 0 x (u32 d) % 2 ^ 16) v)) [
              | inl p ↦ rw (t, u, p) (false, refl)
              | inr p ↦ rw (t, u, p) (true, refl)
            ]
          ]
        ])
]

-- What the call for a leaf must do for the search: return, with the working state in order.
abbrev pub LeafReturns : CrushMap → Leaf → Type 0
LeafReturns m below =
    (n : ℕ) (b : Bucket) (sub_r : ℕ) (out2 : List ℤ) (count : ℕ) (w : Work)
    → IsBucket m n b
    → WorkFits m w
    → (out2' : List ℤ) × (w' : Work) × (below b sub_r out2 count w ≡ ok (out2', w')) × WorkFits m w'

module _ {m : CrushMap} {rank : ℕ → ℕ} {depth width : ℕ} (fits : MapFits m rank depth width)
    (a : Args) (below : Leaf) (leaves : (a.recurse_to_leaf ≡ false) ⊎ LeafReturns m below) where
  find_leaf-ok :
      (n : ℕ) (item : ℤ) (r : ℕ) (out2 : List ℤ) (count : ℕ) (w : Work)
      → ItemFits m rank n item
      → WorkFits m w
      → (found : Found) × (w' : Work) × (find_leaf m a below item r out2 count w ≡ ok (found, w'))
        × WorkFits m w'
  unfolding find_leaf
  find_leaf-ok n (pos d) r out2 count w g works = elim (Bool-cases a.recurse_to_leaf) [
    | inr no_leaves ↦ rw no_leaves (leaf none, w, refl, works)
    | inl t ↦ rw t (leaf (some (pos d)), w, refl, works)
  ]
  find_leaf-ok n (negsuc k) r out2 count w g works = elim (Bool-cases a.recurse_to_leaf) [
    | inr no_leaves ↦ rw no_leaves (leaf none, w, refl, works)
    | inl t ↦ elim leaves [
      | inl none_asked ↦ absurd (cc)
      | inr returns ↦
          let (b, e) = g.0 in
          let sub_r = if a.vary_r == 0 then 0 else r / 2 ^ (a.vary_r - 1) in
          let (out2', w', eq, works') = returns k b sub_r out2 count w e works in
          (last? out2' (length out2), w', rw (t, bucket_at-IsBucket m k b e, eq), works')
    ]
  ]

  -- The type of an item of the map.
  item_type-ok : (n : ℕ) (item : ℤ) → ItemFits m rank n item → (t : ℤ) × (item_type m item ≡ ok t)
  unfolding item_type
  item_type-ok n (pos d) g = (pos 0, refl)
  item_type-ok n (negsuc k) g = let (b, e) = g.0 in (pos b.type, rw (bucket_at-IsBucket m k b e))

  -- Only a device has the type of devices.
  is_out-ok :
      (n : ℕ) (item : ℤ) (x : ℕ)
      → ItemFits m rank n item
      → item_type m item ≡ ok (pos 0)
      → (t : Bool) × (is_out a.weight item x ≡ ok t)
  unfolding item_type
  is_out-ok n (pos d) x g e = is_out-device a.weight d x
  is_out-ok n (negsuc k) x g e =
      let (b, at) = g.0 in
      let typed : ok (pos b.type) ≡ ok (pos 0) = rw (bucket_at-IsBucket m k b at) at e in
      absurd (fits.types k b at (ground arith))

  abbrev pub Goes : ℕ → List ℤ → Outcome Progress → Type 0
  Goes f out r = (p : Progress) × (r ≡ ok p) × Reached fits a f out p

  check_out-Goes :
      (f n n0 : ℕ) (bucket : Bucket) (s : Search) (item : ℤ) (out : List ℤ) (found : Found)
      (w : Work)
      → IsBucket m n0 bucket
      → Within fits a (suc f) s
      → ItemFits m rank n item
      → item_type m item ≡ ok a.type
      → ((o : ℕ) → get_elem? out o ≢ some item)
      → WorkFits m w
      → Goes f out (check_out m a bucket s item a.type (found, w))
  unfolding check_out
  check_out-Goes f n n0 bucket s item out no_leaf w e0 inside g typed fresh works = (
    retry a bucket (record s { work = w }) false,
    refl,
    retry-Reached fits a f out bucket (record s { work = w }) false n0 e0
        (inside.0, inside.1, works, inside.3),
  )
  check_out-Goes f n n0 bucket s item out (leaf l) w e0 inside g typed fresh works =
      elim (Bool-cases (eqb_ℤ a.type (pos 0))) [
        | inr t ↦
            let unlike : a.type ≡ pos 0 → is_out a.weight item a.x ≡ ok false =
              λ z. absurd (ground (arith, (eqb_ℤ_iff a.type (pos 0)).1)) in
            rw t (got item l w, refl, (works, (typed, unlike), fresh))
        | inl t ↦
            let zeroed : a.type ≡ pos 0 = (eqb_ℤ_iff a.type (pos 0)).0 t in
            let (o, eo) = is_out-ok n item a.x g (typed ∙ ap ok zeroed) in
            elim (Bool-cases o) [
              | inl u ↦
                  rw (t, eo, u)
                    (
                      retry a bucket (record s { work = w }) false,
                      refl,
                      retry-Reached fits a f out bucket (record s { work = w }) false n0 e0
                          (inside.0, inside.1, works, inside.3),
                    )
              | inr u ↦
                  rw (t, eo, u) (got item l w, refl, (works, (typed, λ z. eo ∙ ap ok u), fresh))
            ]
      ]

  accept-Goes :
      (f n n0 : ℕ) (bucket : Bucket) (s : Search) (r : ℕ) (item : ℤ) (out out2 : List ℤ) (count : ℕ)
      → IsBucket m n0 bucket
      → Within fits a (suc f) s
      → ItemFits m rank n item
      → item_type m item ≡ ok a.type
      → Goes f out (accept m a below bucket s r item a.type out out2 count)
  unfolding accept
  accept-Goes f n n0 bucket s r item out out2 count e0 inside g typed =
      elim (Bool-cases (collides item out)) [
        | inl t ↦
            rw t
              (retry a bucket s true, refl, retry-Reached fits a f out bucket s true n0 e0 inside)
        | inr t ↦
            let (found, w', eq, works) = find_leaf-ok n item r out2 count s.work g inside.2 in
            rw (t, eq)
              (check_out-Goes f n n0 bucket s item out found w' e0 inside g typed
                (collides-ne item out t) works)
      ]

  -- Down into a bucket.
  lower :
      (f n k : ℕ) (s : Search) (c : Bucket)
      → IsBucket m k c
      → rank k < rank n
      → WorkFits m s.work
      → cost a (local_bound a width) (depth + 1) s (rank n) < suc f
      → Within fits a f (record s { cursor = c })
  lower f n k s c e below_it works h = (k, e, works, omega arith)

  examine-Goes :
      (f n n0 : ℕ) (bucket : Bucket) (s : Search) (r : ℕ) (item : ℤ) (out out2 : List ℤ) (count : ℕ)
      → IsBucket m n0 bucket
      → IsBucket m n s.cursor
      → WorkFits m s.work
      → cost a (local_bound a width) (depth + 1) s (rank n) < suc f
      → ItemFits m rank n item
      → Goes f out (examine m a below bucket s r item out out2 count)
  unfolding examine
  examine-Goes f n n0 bucket s r item out out2 count e0 e works h g =
      let (t, et) = item_type-ok n item g in
      elim (Bool-cases (is_bad_item m item)) [
        | inl bad ↦ rw bad (skip s.work, refl, works)
        | inr good ↦ elim (Bool-cases (eqb_ℤ t a.type)) [
          | inl same ↦
              let alike : t ≡ a.type = (eqb_ℤ_iff t a.type).0 same in
              rw (good, et, same, alike)
                (accept-Goes f n n0 bucket s r item out out2 count e0 (n, e, works, h) g
                  (et ∙ ap ok alike))
          | inr unlike ↦ elim (Bool-cases (is_no_bucket m item)) [
            | inl end ↦ rw (good, et, unlike, end) (skip s.work, refl, works)
            | inr more ↦ rw (good, et, unlike, more) (into item g more)
          ]
        ]
      ]
    where
      into :
          (it : ℤ)
          → ItemFits m rank n it
          → is_no_bucket m it ≡ false
          → Goes f out (bucket_at m it >>= λ b. ok (again (record s { cursor = b })))
      into (pos d) gi q = absurd (ground arith)
      into (negsuc k) gi q =
          let (c, ec) = gi.0 in
          rw (bucket_at-IsBucket m k c ec)
            (again (record s { cursor = c }), refl, lower f n k s c ec gi.1 works h)

  -- A round goes well: the search is over, or it costs less from there on.
  pub search_step-Goes :
      (f n0 : ℕ) (bucket : Bucket) (rep : ℕ) (out out2 : List ℤ) (count : ℕ) (s : Search)
      → ArgsFit m a.choose_args
      → IsBucket m n0 bucket
      → Within fits a (suc f) s
      → Goes f out (search_step m a below bucket rep out out2 count s)
  unfolding search_step
  search_step-Goes f n0 bucket rep out out2 count s args e0 inside =
      elim (Bool-cases (size s.cursor == 0)) [
        | inl t ↦
            rw t
              (retry a bucket s false, refl, retry-Reached fits a f out bucket s false n0 e0 inside)
        | inr t ↦
            let r = rep + a.parent_r + s.ftotal in
            let (item, w', eq, has, works) =
              pick-Picks fits a args inside.0 s.cursor inside.1 (ground arith) s.flocal (length out)
                r s.work inside.2 in
            rw (t, eq)
              (examine-Goes f inside.0 n0 bucket (record s { work = w' }) r item out out2 count e0
                inside.1 works inside.3 (fits.items inside.0 s.cursor item inside.1 has))
      ]
