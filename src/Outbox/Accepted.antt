-- ===== src/Outbox/Accepted.antt =====
-- The contract of an accepted submission.
use sismatic.Common.{
  String, ◌≡◌, refl, true, none, List, [], ◌∷◌, ◌++◌, map, arith, ap, sym, ◌∙◌, subst, contains,
  distinct, length,
}
use sismatic.Common.Dict
use sismatic.Common.Dict.{Dict}
use sismatic.Api.{Acceptance, Accepted}
use sismatic.Store.Policy.{Result, ok, err, Submission, SubmitError}
use sismatic.Outbox.State.{DeviceLog, default_log, Outbox, log_of, set_batch}
use sismatic.Outbox.Submit.{
  Admission, rows, expect, arm, accepted_row, enqueue_all, admit_all, apply_admitted,
  admit_and_enqueue, existing_row, submit,
}
use sismatic.Outbox.Cases.{submit_cases}
use sismatic.Outbox.Queues.{queue_of}
use sismatic.Outbox.Submission.{admit_all_keeps, row_ids}
use sismatic.Outbox.Accepting.{
  ids_for, rows_for, queue_of-enqueue_all, length-admit_all, IsRecorded, new_rows,
}

pub record IsAccepted (s : Submission) (o o' : Outbox) (a : Acceptance) : Type 0 where
  pub batch : a.batch ≡ s.batch
  pub ids : map (λ w. w.id) a.writes ≡ s.ids
  pub devices : map (λ w. w.device) a.writes ≡ s.targets
  pub queues :
      (device : String) → queue_of device o' ≡ queue_of device o ++ ids_for device s.targets s.ids
  pub recorded : (id : String) → contains id s.ids ≡ true → IsRecorded s o' id

pub rows_lists :
    (targets ids : List String) (admitted : List Admission)
    → length ids ≡ length targets
    → length admitted ≡ length targets
    → (map (λ w. w.id) (map accepted_row (rows targets ids admitted)) ≡ ids)
      × (map (λ w. w.device) (map accepted_row (rows targets ids admitted)) ≡ targets)
      × (row_ids (rows targets ids admitted) ≡ ids)
unfolding rows
rows_lists (t ∷ targets) (i ∷ ids) (a ∷ admitted) h k =
    let (e, f, g) = rows_lists targets ids admitted (omega arith) (omega arith) in
    (ap (◌∷◌ i) e, ap (◌∷◌ t) f, ap (◌∷◌ i) g)
rows_lists [] [] admitted h k = (refl, refl, refl)
rows_lists [] (i ∷ ids) admitted h k = absurd (omega arith)
rows_lists (t ∷ targets) [] admitted h k = absurd (omega arith)
rows_lists (t ∷ targets) (i ∷ ids) [] h k = absurd (omega arith)

pub armed_keeps :
    (s : Submission) (o : Outbox)
    → ((arm s (expect s o)).logs ≡ o.logs) × ((arm s (expect s o)).records ≡ o.records)
unfolding arm expect set_batch
armed_keeps s o = (ground arith, ground arith)

module _ (s : Submission) (o : Outbox) (d : distinct s.ids ≡ true)
    (n : length s.ids ≡ length s.targets) where
  IsAccepted-rows :
      (logs : Dict DeviceLog) (admitted : List Admission) (a : Acceptance)
      → ((j : String) → Dict.get_or j default_log logs ≡ log_of j o)
      → length admitted ≡ length s.targets
      → (apply_admitted s (record o { logs = logs }) (ok admitted)).0 ≡ ok a
      → IsAccepted s o (apply_admitted s (record o { logs = logs }) (ok admitted)).1 a
  IsAccepted-rows logs admitted a same m e =
      let all = rows s.targets s.ids admitted in
      let o1 : Outbox = record o { logs = logs } in
      let o2 = enqueue_all s all o1 in
      let (ids, devices, row_list) = rows_lists s.targets s.ids admitted n m in
      let (kept_logs, kept_records) = armed_keeps s o2 in
      let written : map accepted_row all ≡ a.writes = ground arith in
      record {
        batch = ground arith;
        ids = subst (λ (ws : List Accepted). map (λ w. w.id) ws ≡ s.ids) written ids;
        devices =
            subst (λ (ws : List Accepted). map (λ w. w.device) ws ≡ s.targets) written devices;
        queues = λ j.
            subst
              (λ (ls : Dict DeviceLog).
                (Dict.get_or j default_log ls).queue ≡ queue_of j o ++ ids_for j s.targets s.ids)
              (sym kept_logs)
              (ground (
                arith,
                queue_of-enqueue_all s all o1 j,
                same j,
                rows_for s.targets s.ids admitted j n m,
              ));
        recorded = λ id h.
            let (row, e', f) =
              new_rows s all o1 id (subst (λ l. distinct l ≡ true) (sym row_list) d)
                (subst (λ l. contains id l ≡ true) (sym row_list) h) in
            (row, e', ap (Dict.get id) kept_records ∙ f);
      }

  by_admission :
      (logs : Dict DeviceLog) (r : Result (List Admission) SubmitError) (a : Acceptance)
      → ((j : String) → Dict.get_or j default_log logs ≡ log_of j o)
      → ((l : List Admission) → r ≡ ok l → length l ≡ length s.targets)
      → (apply_admitted s (record o { logs = logs }) r).0 ≡ ok a
      → IsAccepted s o (apply_admitted s (record o { logs = logs }) r).1 a
  by_admission logs (ok admitted) a same m e =
      IsAccepted-rows logs admitted a same (m admitted refl) e
  by_admission logs (err x) a same m e = absurd (cc)

-- A submission under no key that was used before, whose ids are all different, and that is accepted
-- answers with its batch, its ids and its targets in order; it puts at the end of each device's
-- queue the ids meant for that device, in order, and nothing on any other queue; and every id has a
-- fresh pending record.
pub submit-IsAccepted :
    (s : Submission) (o : Outbox) (a : Acceptance)
    → distinct s.ids ≡ true
    → existing_row s o ≡ none
    → (submit s o).0 ≡ ok a
    → IsAccepted s o (submit s o).1 a
unfolding admit_and_enqueue
submit-IsAccepted s o a d fresh =
    submit_cases (λ r. r.0 ≡ ok a → IsAccepted s o r.1 a) s o (λ _ e. absurd (cc))
      (λ _ e _. absurd (cc))
      (λ n _ e.
        let r = admit_all s.intent s.targets o.logs in
        by_admission s o d n r.1 r.0 a (admit_all_keeps s.intent s.targets o.logs)
          (length-admit_all s.intent s.targets o.logs) e)
