-- ===== src/Outbox/Draining.antt =====
-- A cancellation empties one queue and changes no device's state or epoch.
use sismatic.Common.{
  ℕ, String, ◌≡◌, refl, ap, ◌∙◌, Bool, not, ◌==◌, eq_iff, eq_refl, some, List, [], ◌∷◌, arith,
  select, inl, inr, Bool-cases, Option-cases,
}
use sismatic.Common.Dict
use sismatic.Common.Dict.{Dict, get-insert}
use sismatic.Api.{WriteRecord}
use sismatic.Store.Policy.{add64}
use sismatic.Outbox.State.{DeviceLog, Outbox, log_of, set_log, set_record, default_log}
use sismatic.Outbox.Cancel.{
  cancel_if_pending, cancel_pending, cancel_member, cancel_members, cancel_batch, cancel_batches,
  is_row_of, group_reason,
}
use sismatic.Outbox.Queues.{queue_of, log_of-set_log}
use sismatic.Outbox.Claims.{log_of_found}

-- The queue of the device is empty, and no device's state or epoch is another than it was.
pub record Drained (device : String) (o o' : Outbox) : Type 0 where
  pub queue : queue_of device o' ≡ []
  pub states :
      (j : String) → (log_of j o').desired_recording_state ≡ (log_of j o).desired_recording_state
  pub epochs : (j : String) → (log_of j o').epoch ≡ (log_of j o).epoch

cancel_pending_logs :
    (reason : String) (ids : List String) (s : Outbox × ℕ)
    → (cancel_pending reason ids s).0.logs ≡ s.0.logs
unfolding cancel_pending
cancel_pending_logs reason [] s = refl
cancel_pending_logs reason (id ∷ ids) (o, n) =
    cancel_pending_logs reason ids (cancel_if_pending reason id (o, n)) ∙ one
  where
    one : (cancel_if_pending reason id (o, n)).0.logs ≡ o.logs
    one = unfold cancel_if_pending set_record in ground arith

-- The log of one device changes only in its queue, and an empty queue stays empty.
requeue-Drained :
    (device member : String) (o o' : Outbox) (log : DeviceLog) (p : String → Bool)
    → Dict.get member o'.logs ≡ some log
    → Drained device o o'
    → Drained device o (set_log member (record log { queue = select p log.queue }) o')
unfolding select
requeue-Drained device member o o' log p found d =
    let here = log_of_found member o' log found in
    let changed : DeviceLog = record log { queue = select p log.queue } in
    record {
      queue = elim (Bool-cases (member == device)) [
        | inl mine ↦
            let bare : log.queue ≡ [] = ground (arith, eq_iff member device, d.queue) in
            let set : log_of device (set_log member changed o') ≡ changed =
              log_of-set_log member device changed o' ∙ rw mine in
            ap (λ (l : DeviceLog). l.queue) set ∙ ap (select p) bare
        | inr other ↦
            let kept : log_of device (set_log member changed o') ≡ log_of device o' =
              log_of-set_log member device changed o' ∙ rw other in
            ap (λ (l : DeviceLog). l.queue) kept ∙ d.queue
      ];
      states = λ j. ground (arith, log_of-set_log member j changed o', eq_iff member j, d.states j);
      epochs = λ j. ground (arith, log_of-set_log member j changed o', eq_iff member j, d.epochs j);
    }

over_records-Drained :
    (device : String) (o o' o'' : Outbox)
    → o''.logs ≡ o'.logs
    → Drained device o o'
    → Drained device o o''
over_records-Drained device o o' o'' e d = record {
  queue = ap (λ (ls : Dict DeviceLog). (Dict.get_or device default_log ls).queue) e ∙ d.queue;
  states = λ j.
      ap (λ (ls : Dict DeviceLog). (Dict.get_or j default_log ls).desired_recording_state) e
      ∙ d.states j;
  epochs = λ j. ap (λ (ls : Dict DeviceLog). (Dict.get_or j default_log ls).epoch) e ∙ d.epochs j;
}

module _ (device : String) (o : Outbox) where
  cancel_members-Drained :
      (batch reason : String) (members : List String) (s : Outbox × ℕ)
      → Drained device o s.0
      → Drained device o (cancel_members batch reason members s).0
  unfolding cancel_members
  cancel_members-Drained batch reason [] s d = d
  cancel_members-Drained batch reason (member ∷ members) (p, n) d =
      cancel_members-Drained batch reason members (cancel_member batch reason member (p, n)) one
    where
      one : Drained device o (cancel_member batch reason member (p, n)).0
      one = elim (Option-cases (Dict.get member p.logs)) [
        | inl e ↦ unfold cancel_member in rw (e, cancel_member) d
        | inr (log, e) ↦
            let kept = λ (id : String). not (is_row_of batch p.records id) in
            let doomed = select (is_row_of batch p.records) log.queue in
            let p' = set_log member (record log { queue = select kept log.queue }) p in
            unfold cancel_member in
            rw (e, cancel_member)
              (over_records-Drained device o p' (cancel_pending reason doomed (p', n)).0
                (cancel_pending_logs reason doomed (p', n))
                (requeue-Drained device member o p log kept e d))
      ]

  pub cancel_batches-Drained :
      (reason : String) (batches : List String) (s : Outbox × ℕ)
      → Drained device o s.0
      → Drained device o (cancel_batches reason batches s).0
  unfolding cancel_batches
  cancel_batches-Drained reason [] s d = d
  cancel_batches-Drained reason (batch ∷ batches) (p, n) d =
      let next = cancel_batch batch reason p in
      cancel_batches-Drained reason batches (next.0, add64 n next.1) one
    where
      one : Drained device o (cancel_batch batch reason p).0
      one = elim (Option-cases (Dict.get batch p.batches)) [
        | inl e ↦ unfold cancel_batch in rw (e, cancel_batch) d
        | inr (entry, e) ↦
            unfold cancel_batch in
            rw (e, cancel_batch)
              (cancel_members-Drained batch (group_reason reason) entry.members
                (record p { batches = Dict.remove batch p.batches }, 0)
                (record { queue = d.queue; states = d.states; epochs = d.epochs }))
      ]

pub bare_log-Drained :
    (device : String) (o : Outbox) (log : DeviceLog)
    → Dict.get device o.logs ≡ some log
    → (records : Dict WriteRecord)
    → Drained device o (record (set_log device (record log { queue = [] }) o) { records = records })
bare_log-Drained device o log e records =
    let changed : DeviceLog = record log { queue = [] } in
    record {
      queue = ground (arith, log_of-set_log device device changed o, eq_refl device);
      states = λ j. ground (arith, log_of-set_log device j changed o, eq_iff device j);
      epochs = λ j. ground (arith, log_of-set_log device j changed o, eq_iff device j);
    }
