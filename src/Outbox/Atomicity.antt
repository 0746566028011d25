-- ===== src/Outbox/Atomicity.antt =====
-- A submission that is refused changes nothing that a reader or a later submission can see.
use sismatic.Common.{String, ◌≡◌, refl, true, List, [], ◌∷◌, eq_refl, arith, subst, contains}
use sismatic.Common.Dict
use sismatic.Common.Dict.{Dict, get-update}
use sismatic.Api.{Intent, DesiredRecordingState, Rejection}
use sismatic.Store.Policy.{Result, ok, err, Submission, SubmitError, rejected, verb_of, admit}
use sismatic.Outbox.State.{DeviceLog, default_log, Outbox, log_of}
use sismatic.Outbox.Submit.{Admission, admit_all, apply_admitted, admit_and_enqueue, submit}
use sismatic.Outbox.Cases.{submit_cases}
use sismatic.Outbox.Submission.{touched, admit_all_keeps}

-- The two states differ at most in logs that hold their defaults.
pub record SameView (o o' : Outbox) : Type 0 where
  pub logs : (device : String) → log_of device o' ≡ log_of device o
  pub batches : o'.batches ≡ o.batches
  pub groups : o'.groups ≡ o.groups
  pub records : o'.records ≡ o.records

SameView-refl : (o : Outbox) → SameView o o
SameView-refl o = record { logs = λ j. refl; batches = refl; groups = refl; records = refl }

apply_admitted_err :
    (s : Submission) (o : Outbox) (logs : Dict DeviceLog) (r : Result (List Admission) SubmitError)
    (e : SubmitError)
    → ((j : String) → Dict.get_or j default_log logs ≡ log_of j o)
    → (apply_admitted s (record o { logs = logs }) r).0 ≡ err e
    → SameView o (apply_admitted s (record o { logs = logs }) r).1
apply_admitted_err s o logs (ok admitted) e same h = absurd (cc)
apply_admitted_err s o logs (err x) e same h = record {
  logs = same;
  batches = refl;
  groups = refl;
  records = refl;
}

-- A submission that returns an error leaves every batch, expectation and record, and every device's
-- log, as it was; a device without a log may get one, which holds the defaults that it is read with
-- anyway.
pub submit-err-SameView :
    (s : Submission) (o : Outbox) (e : SubmitError)
    → (submit s o).0 ≡ err e
    → SameView o (submit s o).1
unfolding admit_and_enqueue
submit-err-SameView s o e =
    submit_cases (λ r. r.0 ≡ err e → SameView o r.1) s o (λ _ _. SameView-refl o)
      (λ _ _ f. absurd (cc))
      (λ _ _ f.
        let a = admit_all s.intent s.targets o.logs in
        apply_admitted_err s o a.1 a.0 e (admit_all_keeps s.intent s.targets o.logs) f)

-- The error names a device whose own state refuses the verb.
abbrev RefusedBy : Intent → Dict DeviceLog → List String → SubmitError → Type 0
RefusedBy intent logs devices (rejected device rejection before) =
    (contains device devices ≡ true)
    × ((Dict.get_or device default_log logs).desired_recording_state ≡ before)
    × (admit before (verb_of intent) ≡ err rejection)
RefusedBy intent logs devices _ = Unit

RefusedBy-tail :
    (intent : Intent) (logs : Dict DeviceLog) (device : String) (devices : List String)
    (e : SubmitError)
    → RefusedBy intent (Dict.update device default_log (λ l. l) logs) devices e
    → RefusedBy intent logs (device ∷ devices) e
unfolding contains
RefusedBy-tail intent logs device devices (rejected d rejection before) h =
    (ground arith, ground (arith, touched device d logs), h.2)
RefusedBy-tail intent logs device devices _ h = tt

admit_all-err :
    (intent : Intent) (devices : List String) (logs : Dict DeviceLog) (e : SubmitError)
    → (admit_all intent devices logs).0 ≡ err e
    → RefusedBy intent logs devices e
unfolding admit_all
admit_all-err intent [] logs e h = absurd (cc)
admit_all-err intent (device ∷ devices) logs e h =
    by_answer (admit (Dict.get_or device default_log logs).desired_recording_state (verb_of intent))
      refl (admit_all-err intent devices (Dict.update device default_log (λ l. l) logs) e)
  where
    by_answer :
        (answer : Result DesiredRecordingState Rejection)
        → admit (Dict.get_or device default_log logs).desired_recording_state (verb_of intent)
          ≡ answer
        → ((admit_all intent devices (Dict.update device default_log (λ l. l) logs)).0 ≡ err e
            → RefusedBy intent (Dict.update device default_log (λ l. l) logs) devices e)
        → RefusedBy intent logs (device ∷ devices) e
    by_answer (err rejection) f tail =
        let before = (Dict.get_or device default_log logs).desired_recording_state in
        let named : rejected device rejection before ≡ e = ground arith in
        subst (RefusedBy intent logs (device ∷ devices)) named
          (unfold contains in ground (arith, eq_refl device), refl, f)
    by_answer (ok after) f tail = RefusedBy-tail intent logs device devices e (tail (ground arith))

apply_admitted-err_iff :
    (s : Submission) (o : Outbox) (r : Result (List Admission) SubmitError) (e : SubmitError)
    → (apply_admitted s o r).0 ≡ err e
    → r ≡ err e
apply_admitted-err_iff s o (ok admitted) e h = absurd (cc)
apply_admitted-err_iff s o (err x) e h = cc

-- A rejection is deserved: it names one of the targets, the state that the device has, and the
-- reason for which the admission table refuses the verb in that state.
pub submit_rejected :
    (s : Submission) (o : Outbox) (device : String) (rejection : Rejection)
    (before : DesiredRecordingState)
    → (submit s o).0 ≡ err (rejected device rejection before)
    → (contains device s.targets ≡ true)
      × ((log_of device o).desired_recording_state ≡ before)
      × (admit before (verb_of s.intent) ≡ err rejection)
unfolding admit_and_enqueue
submit_rejected s o device rejection before =
    submit_cases
      (λ r.
        r.0 ≡ err (rejected device rejection before)
        → RefusedBy s.intent o.logs s.targets (rejected device rejection before))
      s o (λ _ f. absurd (cc)) (λ _ _ f. absurd (cc))
      (λ _ _ f.
        let a = admit_all s.intent s.targets o.logs in
        admit_all-err s.intent s.targets o.logs (rejected device rejection before)
          (apply_admitted-err_iff s (record o { logs = a.1 }) a.0 _ f))
