-- ===== src/MonClient/Wants.antt =====
-- A subscription that was asked for without an end stays, whatever maps come.
use xcp_ng_ceph_rbd.Base.{ℕ, ◌+◌, ◌≡◌, refl, ◌&&◌, Bool, true, false, ◌==◌, if◌then◌else◌, u32}
use xcp_ng_ceph_rbd.MonClient.{Sub, want_map, got_map}

-- Wanted until further notice.
abbrev pub IsEndless : Sub → Type 0
IsEndless sub = (sub.want ≡ true) × (sub.onetime ≡ false)

and-left : (a b : Bool) → a && b ≡ true → a ≡ true
and-left true b h = refl
and-left false b h = absurd cc

and-right : (a b : Bool) → a && b ≡ true → b ≡ true
and-right true b h = h
and-right false b h = absurd cc

is_continuous : (onetime : Bool) → (if onetime then false else true) ≡ true → onetime ≡ false
is_continuous true h = absurd cc
is_continuous false h = refl

choice :
    (b : Bool) (x y : Bool × Sub)
    → (b ≡ true → IsEndless x.1)
    → IsEndless y.1
    → IsEndless (if b then x else y).1
choice true x y hx hy = hx refl
choice false x y hx hy = hy

pub want_map-IsEndless : (sub : Sub) (epoch : ℕ) → IsEndless (want_map sub epoch true).1
unfolding want_map
want_map-IsEndless sub epoch =
    choice (sub.want && ((sub.start == epoch) && (if sub.onetime then false else true)))
      (false, sub) (true, record sub { want = true; start = epoch; onetime = false })
      (λ e. (
        and-left sub.want _ e,
        is_continuous sub.onetime (and-right (sub.start == epoch) _ (and-right sub.want _ e)),
      ))
      (refl, refl)

pub got_map-IsEndless : (sub : Sub) (epoch : ℕ) → IsEndless sub → IsEndless (got_map sub epoch)
unfolding got_map
got_map-IsEndless sub epoch (w, c) = both sub.want sub.onetime w c
  where
    both :
        (want onetime : Bool)
        → want ≡ true
        → onetime ≡ false
        → IsEndless (
            if want
            then if onetime
              then record sub { want = false; have = epoch }
              else record sub { start = u32 (epoch + 1); have = epoch }
            else record sub { have = epoch })
    both true false hw hc = (w, c)
    both true true hw hc = absurd cc
    both false onetime hw hc = absurd cc
