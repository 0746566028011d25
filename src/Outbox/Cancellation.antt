-- ===== src/Outbox/Cancellation.antt =====
-- Cancellation keeps every queue well formed.
use sismatic.Common.{
  ℕ, String, ◌≡◌, refl, sym, ap, subst, true, false, not, List, [], ◌∷◌, ◌==◌, eq_refl, arith,
  contains, contains-select, select, inl, inr, Bool-cases, Option-cases,
}
use sismatic.Common.Dict
use sismatic.Common.Dict.{Dict, get-insert}
use sismatic.Api.{is_pending, canceled}
use sismatic.Store.Policy.{add64}
use sismatic.Outbox.State.{DeviceLog, default_log, Outbox, set_log, set_record}
use sismatic.Outbox.Cancel.{
  Sweep, cancel_row, cancel_rows, cancel_if_pending, cancel_pending, is_row_of, cancel_member,
  cancel_members, group_reason, cancel_batch, cancel_batches, cancel_queued,
}
use sismatic.Outbox.Queues.{
  well_queued, queue_of, WellFormed, WellFormed-set_log, WellFormed-set_record, Absent,
  log_of-set_log, is_queued_of_contains, not_contains, is_queued_elsewhere, well_queued-select,
}
use sismatic.Outbox.Claims.{log_of_found}

-- None of the ids stands in a queue.
abbrev AllAbsent : List String → Outbox → Type 0
AllAbsent ids o = (id : String) → contains id ids ≡ true → Absent id o

contains_self : (id : String) (ids : List String) → contains id (id ∷ ids) ≡ true
unfolding contains
contains_self id ids = ground (arith, eq_refl id)

contains-tail :
    (k id : String) (ids : List String) → contains k ids ≡ true → contains k (id ∷ ids) ≡ true
unfolding contains
contains-tail k id ids h = ground arith

-- An id taken out of its device's queue stands in none.
taken-Absent :
    {o : Outbox}
    → WellFormed o
    → (device id : String) (log : DeviceLog) → contains id (queue_of device o) ≡ true
    → contains id log.queue ≡ false
    → Absent id (set_log device log o)
taken-Absent {o} w device id log there gone j = elim (Bool-cases (device == j)) [
  | inl here ↦ ground (arith, log_of-set_log device j log o)
  | inr other ↦
      let absent = not_contains o.records j id (queue_of j o) (w.queues j) (
        is_queued_elsewhere o.records id device j
          (is_queued_of_contains o.records device id (queue_of device o) (w.queues device) there)
          other) in
      ground (arith, log_of-set_log device j log o, absent)
]

cancel_rows-WellFormed :
    (reason : String) (ids : List String) (s : Sweep) (o : Outbox)
    → WellFormed (record o { records = s.records })
    → AllAbsent ids o
    → WellFormed (record o { records = (cancel_rows reason ids s).records })
unfolding cancel_rows
cancel_rows-WellFormed reason [] s o w h = w
cancel_rows-WellFormed reason (id ∷ ids) s o w h =
    cancel_rows-WellFormed reason ids (cancel_row reason id s) o one_row
      (λ k m. h k (contains-tail k id ids m))
  where
    one_row : WellFormed (record o { records = (cancel_row reason id s).records })
    one_row = elim (Option-cases (Dict.get id s.records)) [
      | inl e ↦ unfold cancel_row in rw (e, cancel_row) w
      | inr (r, e) ↦
          unfold cancel_row set_record in
          rw (e, cancel_row)
            (WellFormed-set_record w id (record r { status = canceled reason })
              (h id (contains_self id ids)))
    ]

-- A row that stands in no queue may be canceled, and no queue changes.
cancel_if_pending-WellFormed :
    (reason id : String) (o : Outbox) (n : ℕ)
    → WellFormed o
    → Absent id o
    → WellFormed (cancel_if_pending reason id (o, n)).0
      × ((cancel_if_pending reason id (o, n)).0.logs ≡ o.logs)
unfolding cancel_if_pending set_record
cancel_if_pending-WellFormed reason id o n w h = elim (Option-cases (Dict.get id o.records)) [
  | inl e ↦ rw (e, cancel_if_pending) (w, refl)
  | inr (r, e) ↦
      rw (e, cancel_if_pending)
        (elim (Bool-cases (is_pending r.status)) [
          | inl waits ↦
              rw waits (WellFormed-set_record w id (record r { status = canceled reason }) h, refl)
          | inr past ↦ rw past (w, refl)
        ])
]

cancel_pending-WellFormed :
    (reason : String) (ids : List String) (o : Outbox) (n : ℕ)
    → WellFormed o
    → AllAbsent ids o
    → WellFormed (cancel_pending reason ids (o, n)).0
unfolding cancel_pending
cancel_pending-WellFormed reason [] o n w h = w
cancel_pending-WellFormed reason (id ∷ ids) o n w h =
    let step = cancel_if_pending-WellFormed reason id o n w (h id (contains_self id ids)) in
    let next = cancel_if_pending reason id (o, n) in
    cancel_pending-WellFormed reason ids next.0 next.1 step.0 (λ k m j.
      subst (λ (ls : Dict DeviceLog). contains k (Dict.get_or j default_log ls).queue ≡ false)
        (sym step.1) (h k (contains-tail k id ids m) j))

module _ {o : Outbox} (w : WellFormed o) where
  cancel_member-WellFormed :
      (batch reason member : String) (n : ℕ)
      → WellFormed (cancel_member batch reason member (o, n)).0
  unfolding cancel_member
  cancel_member-WellFormed batch reason member n = elim (Option-cases (Dict.get member o.logs)) [
    | inl e ↦ rw (e, cancel_member) w
    | inr (log, e) ↦
        let mine = is_row_of batch o.records in
        let found = ap (λ (l : DeviceLog). l.queue) (log_of_found member o log e) in
        let kept : DeviceLog = record log { queue = select (λ id. not (mine id)) log.queue } in
        rw (e, cancel_member)
          (cancel_pending-WellFormed reason (select mine log.queue) (set_log member kept o) n
            (WellFormed-set_log w member kept (
              well_queued-select o.records member (λ id. not (mine id)) log.queue
                (subst (λ q. well_queued o.records member q ≡ true) found (w.queues member))))
            (λ id m.
              taken-Absent w member id kept (ground (arith, contains-select mine id log.queue)) (
                ground (
                  arith,
                  contains-select mine id log.queue,
                  contains-select (λ k. not (mine k)) id log.queue,
                ))))
  ]

cancel_members-WellFormed :
    (batch reason : String) (members : List String) (o : Outbox) (n : ℕ)
    → WellFormed o
    → WellFormed (cancel_members batch reason members (o, n)).0
unfolding cancel_members
cancel_members-WellFormed batch reason [] o n w = w
cancel_members-WellFormed batch reason (member ∷ members) o n w =
    let next = cancel_member batch reason member (o, n) in
    cancel_members-WellFormed batch reason members next.0 next.1
      (cancel_member-WellFormed w batch reason member n)

cancel_batch-WellFormed :
    (batch reason : String) (o : Outbox) → WellFormed o → WellFormed (cancel_batch batch reason o).0
unfolding cancel_batch
cancel_batch-WellFormed batch reason o w = elim (Option-cases (Dict.get batch o.batches)) [
  | inl e ↦ rw (e, cancel_batch) w
  | inr (entry, e) ↦
      rw (e, cancel_batch)
        (cancel_members-WellFormed batch (group_reason reason) entry.members
          (record o { batches = Dict.remove batch o.batches }) 0 (record { queues = w.queues }))
]

cancel_batches-WellFormed :
    (reason : String) (batches : List String) (o : Outbox) (n : ℕ)
    → WellFormed o
    → WellFormed (cancel_batches reason batches (o, n)).0
unfolding cancel_batches
cancel_batches-WellFormed reason [] o n w = w
cancel_batches-WellFormed reason (batch ∷ batches) o n w =
    let next = cancel_batch batch reason o in
    cancel_batches-WellFormed reason batches next.0 (add64 n next.1)
      (cancel_batch-WellFormed batch reason o w)

pub cancel_queued-WellFormed :
    {o : Outbox}
    → WellFormed o
    → (device reason : String) → WellFormed (cancel_queued device reason o).0
unfolding cancel_queued
cancel_queued-WellFormed {o} w device reason = elim (Option-cases (Dict.get device o.logs)) [
  | inl e ↦ rw (e, cancel_queued) w
  | inr (log, e) ↦
      let found = ap (λ (l : DeviceLog). l.queue) (log_of_found device o log e) in
      let bare : DeviceLog = record log { queue = [] } in
      let drained = set_log device bare o in
      let start : Sweep = record { records = drained.records; doomed = []; count = 0 } in
      let s = cancel_rows reason log.queue start in
      let w' = WellFormed-set_log w device bare (unfold well_queued in refl) in
      rw (e, cancel_queued)
        (cancel_batches-WellFormed reason s.doomed (record drained { records = s.records }) s.count
          (cancel_rows-WellFormed reason log.queue start drained (record { queues = w'.queues })
            (λ id m.
              taken-Absent w device id bare (subst (λ q. contains id q ≡ true) (sym found) m)
                (unfold contains in refl))))
]
