-- ===== src/Rbd/Write/Errors.antt =====
-- After an error a write sends nothing more.
use xcp_ng_ceph_rbd.Base.{
  ℕ, zero, suc, ◌≡◌, ◌≢◌, refl, true, false, List, [], ◌∷◌, ◌++◌, Option, none, some, ℤ, pos,
  negsuc,
}
use mathlib.Core.List.{append-nil}
use xcp_ng_ceph_rbd.Crush.Outcome.{Outcome, ok, ◌>>=◌}
use xcp_ng_ceph_rbd.Rbd.Copyup.{
  WriteState, start, pre_object_map, object, copyup_wait, copyup, post_object_map, WriteReq, Sent,
  Calls, Step, advance_copyup,
}
use xcp_ng_ceph_rbd.Rbd.Copyup.Stops.{
  IsError, IsResult, IsDoomed, IsStopped, IsError-is_zero, ends-IsStopped, advance_copyup-IsStopped,
  IsDoomed-IsStopped,
}
use xcp_ng_ceph_rbd.Rbd.Write.{
  copyup_done, copyup_ended, copyup_step, pre_done, write_from, advance_write, Event, ended, run,
}
use xcp_ng_ceph_rbd.Rbd.Write.Waits.{IsWaiting, IsWaitingIn}

copyup_done-IsStopped :
    (calls : Calls) (req : WriteReq) (result : ℤ)
    → IsError result
    → IsStopped (copyup_done calls req result)
unfolding copyup_done
copyup_done-IsStopped calls req result bad =
    rw (IsError-is_zero result bad) (ends-IsStopped req result bad)

copyup_ended-IsStopped :
    (calls : Calls) (step : Step) → IsStopped step → IsStopped (step >>= copyup_ended calls)
copyup_ended-IsStopped calls step (false, req, result, e, ends, waits) =
    rw e (false, req, result, refl, ends, waits)
copyup_ended-IsStopped calls step (true, req, result, e, ends, waits) =
    let (done, req', result', e', ends', waits') =
      copyup_done-IsStopped calls req result (ends refl) in
    rw (e, e') (done, req', result', refl, ends', waits')

write_from-IsStopped :
    (w : WriteState) (calls : Calls) (req : WriteReq) (n : ℕ)
    → req.write_state ≡ w
    → IsWaitingIn w req
    → IsResult req.pending.result
    → (w ≡ object → n ≢ 1)
    → IsStopped (write_from w calls req (negsuc n))
unfolding pre_done copyup_step copyup_done
write_from-IsStopped pre_object_map calls req n e h r other = ends-IsStopped req (negsuc n) tt
write_from-IsStopped object calls req zero e h r other = ends-IsStopped req (negsuc zero) tt
write_from-IsStopped object calls req (suc zero) e h r other = absurd (other refl refl)
write_from-IsStopped object calls req (suc (suc n)) e h r other =
    ends-IsStopped req (negsuc (suc (suc n))) tt
write_from-IsStopped copyup_wait calls req n e h r other =
    copyup_ended-IsStopped calls (advance_copyup calls req (negsuc n))
      (advance_copyup-IsStopped calls req n e h r)
write_from-IsStopped post_object_map calls req n e h r other = ends-IsStopped req (negsuc n) tt
write_from-IsStopped start calls req n e h r other = absurd h
write_from-IsStopped copyup calls req n e h r other = absurd h

-- The step that takes the error, and each one after it.
advance_write-IsStopped :
    (calls : Calls) (req : WriteReq) (n : ℕ)
    → IsWaiting req
    → IsResult req.pending.result
    → (req.write_state ≡ object → n ≢ 1)
    → IsStopped (advance_write calls req (negsuc n))
unfolding advance_write
advance_write-IsStopped calls req n h r other =
    write_from-IsStopped req.write_state calls req n refl h r other

doomed_from-IsStopped :
    (w : WriteState) (calls : Calls) (req : WriteReq) (result : ℤ)
    → w ≡ copyup_wait
    → IsDoomed req
    → IsStopped (write_from w calls req result)
unfolding copyup_step
doomed_from-IsStopped copyup_wait calls req result e d =
    copyup_ended-IsStopped calls (advance_copyup calls req result)
      (IsDoomed-IsStopped calls req result d)
doomed_from-IsStopped start calls req result e d = absurd cc
doomed_from-IsStopped pre_object_map calls req result e d = absurd cc
doomed_from-IsStopped object calls req result e d = absurd cc
doomed_from-IsStopped copyup calls req result e d = absurd cc
doomed_from-IsStopped post_object_map calls req result e d = absurd cc

doomed_step-IsStopped :
    (calls : Calls) (req : WriteReq) (result : ℤ)
    → IsDoomed req
    → IsStopped (advance_write calls req result)
unfolding advance_write
doomed_step-IsStopped calls req result d =
    doomed_from-IsStopped req.write_state calls req result d.state d

-- The answer of a run that ends, if it does, with an error.
abbrev pub IsBad : Option ℤ → Type 0
IsBad none = Unit
IsBad (some result) = IsError result

-- A run that sends nothing behind `log`, and ends, if it does, with an error.
abbrev pub IsSilent : List Sent → Outcome (Option ℤ × List Sent) → Type 0
IsSilent log outcome = (answer : Option ℤ) × (outcome ≡ ok (answer, log)) × IsBad answer

ended-IsSilent : (result : ℤ) (log : List Sent) → IsError result → IsSilent log (ended result log)
ended-IsSilent (pos n) log h = absurd h
ended-IsSilent (negsuc n) log h = (some (negsuc n), refl, tt)

stopped-IsSilent :
    (events : List Event) (step : Step) (log : List Sent)
    → ((req : WriteReq) (result : ℤ)
        → IsDoomed req
        → IsSilent log (run events (false, req, result, log)))
    → IsStopped step
    → IsSilent log
        (step >>= λ (done, req', result', more). run events (done, req', result', log ++ more))
unfolding run
stopped-IsSilent events step log further (true, req, result, e, ends, waits) =
    rw (e, append-nil log) (ended-IsSilent result log (ends refl))
stopped-IsSilent events step log further (false, req, result, e, ends, waits) =
    rw (e, append-nil log) (further req result (waits refl))

doomed-IsSilent :
    (events : List Event) (req : WriteReq) (result : ℤ) (log : List Sent)
    → IsDoomed req
    → IsSilent log (run events (false, req, result, log))
unfolding run
doomed-IsSilent [] req result log d = (none, refl, tt)
doomed-IsSilent (event ∷ events) req result log d =
    stopped-IsSilent events (advance_write event.calls req event.result) log
      (λ req' result' d'. doomed-IsSilent events req' result' log d')
      (doomed_step-IsStopped event.calls req event.result d)

-- A write that waits, with no positive result among those that came, and takes an error, other than
-- -ENOENT for the write of the object, sends nothing more, whatever results come after it; if it ends,
-- it ends with an error.
pub run-IsSilent :
    (calls : Calls) (req : WriteReq) (n : ℕ) (events : List Event) (result : ℤ) (log : List Sent)
    → IsWaiting req
    → IsResult req.pending.result
    → (req.write_state ≡ object → n ≢ 1)
    → IsSilent log
        (run (record { calls = calls; result = negsuc n } ∷ events) (false, req, result, log))
unfolding run
run-IsSilent calls req n events result log h r other =
    stopped-IsSilent events (advance_write calls req (negsuc n)) log
      (λ req' result' d. doomed-IsSilent events req' result' log d)
      (advance_write-IsStopped calls req n h r other)
