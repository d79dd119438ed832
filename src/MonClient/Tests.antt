-- ===== src/MonClient/Tests.antt =====
-- The handlers of kernel-modules/src/libceph/mon_client.c with three monitors.
use xcp_ng_ceph_rbd.Base.{
  ℕ, zero, suc, ◌*◌, ◌<◌, ◌≡◌, ◌≢◌, ◌↔◌, refl, true, false, List, [], ◌∷◌, pos, some, arith,
}
use xcp_ng_ceph_rbd.Crush.Outcome.{◌>>=◌}
use xcp_ng_ceph_rbd.MonClient.{osdmap, Auth, Config, Now, init, pick_mon}
use xcp_ng_ceph_rbd.MonClient.Pick.{pick_mon_iff}
use xcp_ng_ceph_rbd.MonClient.Session.{start}
use xcp_ng_ceph_rbd.MonClient.Session.Safe.{Safely}
use xcp_ng_ceph_rbd.MonClient.Session.Events.{
  Event, auth_reply, timer, faulted, renew, subscribe_ack, new_monmap, want, got, run,
}
use xcp_ng_ceph_rbd.MonClient.Session.Events.Safe.{run-start}

-- An authentication whose state counts the replies: the second one is accepted.
abbrev two_rounds : Auth ℕ
two_rounds = record {
  is_authenticated = λ a. elim a [ suc (suc n) ↦ true | _ ↦ false ];
  reset = λ a. 0;
  build_hello = λ a. (pos 30, a);
  build_auth = λ a. (pos 0, a);
  handle_reply = λ msg a. elim a [ zero ↦ (pos 40, 1) | suc n ↦ (pos 0, 2) ];
  handle_reply_done = λ msg a. (pos 0, 2);
  handle_bad_method = λ a. 0;
}

abbrev second : ℕ
second = 1

abbrev third : ℕ
third = 2

abbrev legacy : Config
legacy = record { msgr2 = false; hz = 250; jiffies_of = λ ms. ms; suffix = 0 }

abbrev at_time : ℕ → Now
at_time t = record { jiffies = t; random = t * 7; keepalive_expired = false; stateful_sub = false }

abbrev events : List (Now × Event)
events =
    (at_time 2, auth_reply [])
    ∷ (at_time 3, auth_reply [])
    ∷ (at_time 4, subscribe_ack (some 300))
    ∷ (at_time 5, new_monmap 5 9)
    ∷ (at_time 6, want osdmap 3 true)
    ∷ (at_time 7, renew)
    ∷ (at_time 8, got osdmap 4)
    ∷ (at_time 9, faulted)
    ∷ (at_time 10, timer)
    ∷ []

run-start_example :
    Safely (start two_rounds legacy (at_time 1) (init 0 3) >>= run two_rounds legacy events)
run-start_example =
    run-start two_rounds legacy (at_time 1) 0 3 events (λ b. (29, b, refl)) (omega arith)
      (omega arith) (tt, (tt, (tt, (omega arith, (tt, (tt, (tt, (tt, (tt, tt)))))))))

pick_mon_iff_example :
    ((random : ℕ) × (pick_mon (pos second) 3 random ≡ third)) ↔ ((third < 3) × (third ≢ second))
pick_mon_iff_example = pick_mon_iff second 3 third (omega arith)
