-- ===== src/Rbd/Write/Tests.antt =====
-- A write to an object that only the parent image has, in an image with a snapshot.
use xcp_ng_ceph_rbd.Base.{
  ◌≤◌, ◌≡◌, refl, true, false, List, [], ◌∷◌, Option, some, length, ℤ, pos, negsuc, arith,
}
use xcp_ng_ceph_rbd.Crush.Outcome.{ok}
use xcp_ng_ceph_rbd.Striper.FileExtents.{FileExtent}
use xcp_ng_ceph_rbd.Rbd.Copyup.{
  copyup_wait, maps_wait, write, start, copyup_start, WriteReq, Sent, Calls,
}
use xcp_ng_ceph_rbd.Rbd.Write.{run, Event, run_write}
use xcp_ng_ceph_rbd.Rbd.Write.Waits.{Rises}
use xcp_ng_ceph_rbd.Rbd.Write.Completes.{run_write-Completes}
use xcp_ng_ceph_rbd.Rbd.Write.Errors.{IsSilent, run-IsSilent}

abbrev part : List FileExtent
part = record { off = 0; len = 8 } ∷ []

abbrev fresh : WriteReq
fresh = record {
  write_state = start;
  copyup_state = copyup_start;
  deletion = false;
  copyup_enabled = true;
  copyup_zeros = false;
  may_exist = false;
  noop_for_nonexistent = false;
  img_extents = part;
  has_bvecs = false;
  pending = record { result = pos 0; num_pending = 0 };
}

-- The object map does not know the object, and every request is sent.
abbrev clone : Calls
clone = record {
  object_map = true;
  fast_diff = false;
  snaps = 7 ∷ [];
  parent_overlap = 8;
  map_may_exist = false;
  map_state = 0;
  memory = true;
  zero_data = false;
  sends = λ sent. 0;
}

abbrev event : ℤ → Event
event result = record { calls = clone; result = result }

-- The object map is told, the write finds no object, the parent is read, the snapshot's object map is
-- told, and both copyups end.
abbrev events : List Event
events =
    event (pos 0)
    ∷ event (negsuc 1)
    ∷ event (pos 0)
    ∷ event (pos 0)
    ∷ event (pos 0)
    ∷ event (pos 0)
    ∷ event (pos 0)
    ∷ []

run_write-Completes_example :
    (answer : Option ℤ) × (log : List Sent) × (run_write clone fresh events ≡ ok (answer, log))
    × Rises 0 log 7
    × (7 ≤ length events → (result : ℤ) × (answer ≡ some result))
run_write-Completes_example =
    run_write-Completes 1 clone fresh events refl (refl, refl, λ e. refl, omega arith) (omega arith)
      (
        omega arith,
        (
          omega arith,
          (omega arith, (omega arith, (omega arith, (omega arith, (omega arith, tt))))),
        ),
      )
      (tt, (tt, (tt, (tt, (tt, (tt, (tt, tt)))))))

-- The object maps of two snapshots are being told; the first update fails with -EIO, and the second
-- succeeds.
abbrev copying : WriteReq
copying = record fresh {
  write_state = copyup_wait;
  copyup_state = maps_wait;
  pending = record { result = pos 0; num_pending = 2 };
}

run-IsSilent_example :
    IsSilent
      (write ∷ [])
      (run (event (negsuc 4) ∷ event (pos 0) ∷ []) (false, copying, pos 0, write ∷ []))
run-IsSilent_example =
    run-IsSilent clone copying 4 (event (pos 0) ∷ []) (pos 0) (write ∷ [])
      (omega arith, omega arith) tt (λ e. absurd cc)
