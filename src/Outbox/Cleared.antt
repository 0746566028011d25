-- ===== src/Outbox/Cleared.antt =====
-- What a cancellation leaves: the device's queue, its rows, and the states of all devices.
use sismatic.Common.{
  ℕ, String, ◌≡◌, refl, sym, ap, ◌∙◌, subst, true, ◌==◌, eq_iff, some, List, [], ◌∷◌, arith,
  contains, inl, inr, Bool-cases,
}
use sismatic.Common.Dict
use sismatic.Common.Dict.{Dict, get-insert}
use sismatic.Api.{WriteRecord, canceled}
use sismatic.Outbox.State.{DeviceLog, Outbox, set_log}
use sismatic.Outbox.Submit.{new_record}
use sismatic.Outbox.Cancel.{Sweep, cancel_row, cancel_rows, cancel_queued}
use sismatic.Outbox.Queues.{WellFormed, well_queued, well_queued-insert}
use sismatic.Outbox.Claims.{head_is_queued, queued_record, log_of_found}
use sismatic.Outbox.Changes.{Stable}
use sismatic.Outbox.Changing.{cancel_rows-Holds, cancel_batches-Holds}
use sismatic.Outbox.Lives.{Change-open}
use sismatic.Outbox.Draining.{Drained, cancel_batches-Drained, bare_log-Drained}

-- Each of the ids has a record that says it was canceled for the reason.
abbrev pub AllCanceled : String → List String → Dict WriteRecord → Type 0
AllCanceled reason ids records =
    (id : String)
    → contains id ids ≡ true
    → (r : WriteRecord) × (Dict.get id records ≡ some r) × (r.status ≡ canceled reason)

still_canceled :
    (reason : String) (ids : List String) (id : String) (r' : WriteRecord)
    (records : Dict WriteRecord)
    → ((r : WriteRecord)
        → Dict.get id records ≡ some r
        → r.status ≡ canceled reason
        → r'.status ≡ canceled reason)
    → AllCanceled reason ids records
    → AllCanceled reason ids (Dict.insert id r' records)
still_canceled reason ids id r' records k h j m =
    let (r, found, is) = h j m in
    elim (Bool-cases (id == j)) [
      | inl mine ↦
          (r', ground (arith, get-insert id j r' records), k r (ground (arith, eq_iff id j)) is)
      | inr other ↦ (r, ground (arith, get-insert id j r' records), is)
    ]

AllCanceled-Stable :
    (reason : String) (ids : List String) (M : ℕ) → Stable (AllCanceled reason ids) M
AllCanceled-Stable reason ids M = record {
  changes = λ id r r' records found change h.
      still_canceled reason ids id r' records
        (λ s e is. absurd (ground (arith, Change-open change))) h;
  adds = λ s row records new h.
      still_canceled reason ids row.id (new_record s row) records (λ r e is. absurd (cc)) h;
}

cancel_rows-AllCanceled :
    (reason device : String) (ids : List String) (s : Sweep)
    → well_queued s.records device ids ≡ true
    → AllCanceled reason ids (cancel_rows reason ids s).records
unfolding cancel_rows contains
cancel_rows-AllCanceled reason device [] s q j m = absurd (ground arith)
cancel_rows-AllCanceled reason device (id ∷ ids) s q j m =
    let mine = head_is_queued s.records device id ids q in
    let (r, found, _, waits) = queued_record s.records device id mine.0 in
    let r' = record r { status = canceled reason } in
    let one : (cancel_row reason id s).records ≡ Dict.insert id r' s.records =
      unfold cancel_row in rw (found, cancel_row) in
    let queued : well_queued (cancel_row reason id s).records device ids ≡ true =
      subst (λ d. well_queued d device ids ≡ true) (sym one)
        (well_queued-insert s.records device id r' ids mine.1 ∙ mine.2) in
    elim (Bool-cases (j == id)) [
      | inr later ↦
          cancel_rows-AllCanceled reason device ids (cancel_row reason id s) queued j (ground arith)
      | inl first ↦
          cancel_rows-Holds (AllCanceled reason (id ∷ [])) 0 (AllCanceled-Stable reason (id ∷ []) 0)
            reason device ids (cancel_row reason id s) queued
            (λ k n. (
              r',
              ap (Dict.get k) one
                  ∙ ground (arith, get-insert id k r' s.records, eq_iff id k, eq_iff k id),
              refl,
            ))
            j (ground (arith, eq_iff j id))
    ]

-- On well-formed queues a known device's queue is cleared: it is empty, every row that stood in it
-- says that it was canceled, for the reason given, and no device's desired recording state or epoch
-- changes.
pub cancel_queued_clears :
    (device reason : String) (o : Outbox) (log : DeviceLog)
    → WellFormed o
    → Dict.get device o.logs ≡ some log
    → Drained device o (cancel_queued device reason o).0
      × AllCanceled reason log.queue (cancel_queued device reason o).0.records
unfolding cancel_queued
cancel_queued_clears device reason o log w e =
    let found = ap (λ (l : DeviceLog). l.queue) (log_of_found device o log e) in
    let bare : DeviceLog = record log { queue = [] } in
    let drained = set_log device bare o in
    let start : Sweep = record { records = drained.records; doomed = []; count = 0 } in
    let s = cancel_rows reason log.queue start in
    let queued = subst (λ q. well_queued o.records device q ≡ true) found (w.queues device) in
    let swept = record drained { records = s.records } in
    rw (e, cancel_queued)
      (
        cancel_batches-Drained device o reason s.doomed (swept, s.count)
            (bare_log-Drained device o log e s.records),
        cancel_batches-Holds (AllCanceled reason log.queue) 0
            (AllCanceled-Stable reason log.queue 0) reason s.doomed (swept, s.count)
            (cancel_rows-AllCanceled reason device log.queue start (unfold set_log in queued)),
      )
