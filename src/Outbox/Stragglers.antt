-- ===== src/Outbox/Stragglers.antt =====
-- Rows of a batch that are claimed one by one, and rows whose batch is gone.
use sismatic.Common.{
  String, ◌≡◌, ◌<◌, refl, true, Option, none, some, ◌∷◌, arith, sym, subst, eq_refl,
}
use sismatic.Common.Dict
use sismatic.Common.Dict.{get-insert}
use sismatic.Api.{WriteRecord, Timestamp, is_in_flight}
use sismatic.Store.Policy.{Result, ok, err, one, Outcome}
use sismatic.Outbox.State.{
  log_of, Gate, waiting, open_gate, abandoned, Batch, Outbox, Chrono, DeviceLog, set_batch, set_log,
  set_record, device_of,
}
use sismatic.Outbox.Drain.{
  WriteError, claim_front, claim_head, head_record, head_of, step_gate, step_batch, as_one, act,
  claim_due, claim_next, ready_members, stepped,
}
use sismatic.Outbox.Settle.{retried, settle_row, settle}
use sismatic.Outbox.Cases.{claim_next_cases, claim_due_cases, step_batch_cases}
use sismatic.Outbox.Release.{batch-ne-one, decide_cases}

claim_head_row :
    (device : String) (at : Timestamp) (o : Outbox) (r head : WriteRecord)
    → (claim_head device at o).0 ≡ ok (some r)
    → head_record device o ≡ some head
    → r.batch ≡ head.batch
unfolding claim_head claim_front
claim_head_row device at o r head e f = ground arith

as_one_claim :
    (x : Result (Option WriteRecord) WriteError) (r : WriteRecord)
    → as_one x ≡ ok (some (one r))
    → x ≡ ok (some r)
as_one_claim (ok none) r e = cc
as_one_claim (ok (some a)) r e = cc
as_one_claim (err x) r e = cc

-- The batch stands open.
abbrev pub IsOpen : String → Outbox → Type 0
IsOpen b o = (entry : Batch) × (Dict.get b o.batches ≡ some entry) × (entry.gate ≡ open_gate)

module _ (c : Chrono) (device : String) (at : Timestamp) (o : Outbox) (r head : WriteRecord)
    (at_head : head_record device o ≡ some head) where
  gated-IsOpen :
      (batch : String) (b : Batch) (gate : Gate)
      → Dict.get batch o.batches ≡ some b
      → b.gate ≡ gate
      → (act
          (step_gate c gate b batch device at o).0
          batch
          device
          at
          (step_gate c gate b batch device at o).1).0
        ≡ ok (some (one r))
      → IsOpen batch o × (r.batch ≡ head.batch)
  unfolding step_gate act
  gated-IsOpen batch b open_gate e g claim =
      ((b, e, g), claim_head_row device at o r head (as_one_claim _ r claim) at_head)
  gated-IsOpen batch b abandoned e g claim = absurd (cc)
  gated-IsOpen batch b waiting e g claim =
      decide_cases
        (λ s.
          (act s batch device at (set_batch batch (stepped b (ready_members o batch b at) s) o)).0
            ≡ ok (some (one r))
          → IsOpen batch o × (r.batch ≡ head.batch))
        c b (ready_members o batch b at) at (λ f. absurd (cc))
        (λ _ f. absurd (batch-ne-one batch _ r f)) (λ _ f. absurd (cc)) claim

  batched-IsOpen :
      (batch : String)
      → (act
          (step_batch c batch device at o).0
          batch
          device
          at
          (step_batch c batch device at o).1).0
        ≡ ok (some (one r))
      → IsOpen batch o × (r.batch ≡ head.batch)
  batched-IsOpen batch =
      step_batch_cases
        (λ s.
          (act s.0 batch device at s.1).0 ≡ ok (some (one r))
          → IsOpen batch o × (r.batch ≡ head.batch))
        c batch device at o (λ _ e. unfold act in absurd (cc))
        (λ b found. gated-IsOpen batch b b.gate found refl)

head_record_found :
    (device id : String) (o : Outbox) (r : WriteRecord)
    → head_of device o ≡ some id
    → Dict.get id o.records ≡ some r
    → head_record device o ≡ some r
head_record_found device id o r e f = ground arith

-- A row of a batch is claimed by itself only when its batch stands open, so after the rendezvous:
-- never while the barrier waits, and never once the batch was abandoned or canceled.
pub claim_next-one-IsOpen :
    (c : Chrono) (device : String) (at : Timestamp) (o : Outbox) (r : WriteRecord) (batch : String)
    → r.batch ≡ some batch
    → (claim_next c device at o).0 ≡ ok (some (one r))
    → IsOpen batch o
claim_next-one-IsOpen c device at o r batch member =
    claim_next_cases (λ s. s.0 ≡ ok (some (one r)) → IsOpen batch o) c device at o
      (λ e. absurd (cc)) (λ _ e. absurd (cc))
      (λ id head h f _.
        let at_head = head_record_found device id o head h f in
        claim_due_cases (λ s. s.0 ≡ ok (some (one r)) → IsOpen batch o) c head device at o
          (λ single e.
            absurd (ground (arith, claim_head_row device at o r head (as_one_claim _ r e) at_head)))
          (λ b of_b claim.
            let (stands, row) = batched-IsOpen c device at o r head at_head b claim in
            subst (λ k. IsOpen k o) (ground arith) stands))

-- Nothing is claimed behind a row whose batch is gone, at any time.
pub orphan_stalls :
    (c : Chrono) (device id : String) (at : Timestamp) (o : Outbox) (r : WriteRecord)
    (batch : String)
    → head_of device o ≡ some id
    → Dict.get id o.records ≡ some r
    → r.batch ≡ some batch
    → Dict.get batch o.batches ≡ none
    → claim_next c device at o ≡ (ok none, o)
unfolding claim_next claim_due step_batch act
orphan_stalls c device id at o r batch h f of_batch gone = ground arith

-- The state after a failed attempt at a row in flight that is tried again.
retried_state :
    (c : Chrono) (id : String) (reason : String) (at : Timestamp) (o : Outbox) (r : WriteRecord)
    → Dict.get id o.records ≡ some r
    → is_in_flight r.status ≡ true
    → r.attempts < o.max_attempts
    → (settle c id (Outcome.failed reason) at o).1
      ≡ settle_row c id r.device r (Outcome.failed reason) at o
unfolding settle device_of
retried_state c id reason at o r f flying again = ground arith

module _ (c : Chrono) (id reason : String) (at : Timestamp) (o : Outbox) (r : WriteRecord)
    (batch : String) (of_batch : r.batch ≡ some batch) (gone : Dict.get batch o.batches ≡ none)
    (again : r.attempts < o.max_attempts) where
  abbrev after_retry : Outbox
  after_retry = settle_row c id r.device r (Outcome.failed reason) at o

  retried_facts :
      (head_of r.device after_retry ≡ some id)
      × (Dict.get id after_retry.records ≡ some (retried c r at o))
      × (Dict.get batch after_retry.batches ≡ none)
  unfolding settle_row set_record set_log set_batch
  retried_facts = (
    ground (
      arith,
      get-insert r.device r.device (record log { queue = id ∷ log.queue }) o.logs,
      eq_refl r.device,
    ),
    ground (arith, get-insert id id (retried c r at o) o.records, eq_refl id),
    ground arith,
  )
    where
      log : DeviceLog
      log = log_of r.device o

-- A row in flight whose batch is gone, as after the cancellation of another member's row, and whose
-- attempt fails with attempts left goes back to the head of its queue and stays there: at no later
-- time does a claim for its device return a write or change the outbox.
pub settle-orphan_stalls :
    (c : Chrono) (id reason : String) (at later : Timestamp) (o : Outbox) (r : WriteRecord)
    (batch : String)
    → Dict.get id o.records ≡ some r
    → is_in_flight r.status ≡ true
    → r.batch ≡ some batch
    → Dict.get batch o.batches ≡ none
    → r.attempts < o.max_attempts
    → claim_next c r.device later (settle c id (Outcome.failed reason) at o).1
      ≡ (ok none, (settle c id (Outcome.failed reason) at o).1)
settle-orphan_stalls c id reason at later o r batch f flying of_batch gone again =
    let (h, found, lost) = retried_facts c id reason at o r batch of_batch gone again in
    let same = retried_state c id reason at o r f flying again in
    subst (λ s. claim_next c r.device later s ≡ (ok none, s)) (sym same)
      (orphan_stalls c r.device id later _ (retried c r at o) batch h found of_batch lost)
