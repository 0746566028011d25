-- ===== src/Outbox/Replays.antt =====
-- What an accepted submission leaves for one that comes again under its idempotency key: at every
-- device that it addresses, the log ends with the last of the rows for that device.
use sismatic.Common.{
  String, ◌≡◌, refl, true, false, inl, inr, Option, none, some, List, [], ◌∷◌, ◌++◌, ◌==◌, eq_refl,
  eq_iff, arith, ap, sym, ◌∙◌, subst, contains, distinct, some_injective, Bool-cases, if◌then◌else◌,
}
use sismatic.Common.Dict
use sismatic.Common.Dict.{Dict, get-insert}
use sismatic.Store.Policy.{Submission}
use sismatic.Outbox.State.{DeviceLog, Outbox, log_of, set_log, set_record}
use sismatic.Outbox.Submit.{Row, new_record, enqueued_log, enqueue, enqueue_all, expect, arm}
use sismatic.Outbox.Submission.{row_ids}
use sismatic.Outbox.Accepted.{armed_keeps}

-- The last of the list that belongs to the device, or else the one given.
abbrev pub newest {ℓ} : {A : Type ℓ} → (A → String) → String → Option A → List A → Option A
newest device_of device kept [] = kept
newest device_of device kept (x ∷ xs) =
    newest device_of device (if device_of x == device then some x else kept) xs

-- The device's log ends with the row, names it under the key, and the row is recorded.
pub record Named (s : Submission) (key device : String) (o : Outbox) (row : Row) : Type 0 where
  pub log : DeviceLog
  pub logged : Dict.get device o.logs ≡ some log
  pub older : List String
  pub last : log.history ≡ older ++ row.id ∷ []
  pub named : Dict.get key log.keys ≡ some row.id
  pub there : Dict.get row.id o.records ≡ some (new_record s row)

module _ (s : Submission) (key : String) (keyed : s.idempotency_key ≡ some key)
    (device : String) where
  Named-enqueue :
      (row : Row) (o : Outbox) → row.device ≡ device → Named s key device (enqueue s row o) row
  unfolding enqueue enqueued_log set_record set_log
  Named-enqueue row o mine = record {
    log = enqueued_log s row (log_of row.device (set_record row.id (new_record s row) o));
    logged = ground (
      arith,
      get-insert row.device device (enqueued_log s row (log_of row.device o)) o.logs,
      eq_iff row.device device,
    );
    older = (log_of row.device o).history;
    last = refl;
    named =
        ground (arith, keyed, get-insert key key row.id (log_of row.device o).keys, eq_refl key);
    there = ground (arith, get-insert row.id row.id (new_record s row) o.records, eq_refl row.id);
  }

  Named-enqueue_other :
      (row kept : Row) (o : Outbox)
      → (row.device == device) ≡ false
      → (row.id == kept.id) ≡ false
      → Named s key device o kept
      → Named s key device (enqueue s row o) kept
  unfolding enqueue set_record set_log
  Named-enqueue_other row kept o other ne held = record {
    log = held.log;
    logged = ground (
      arith,
      held.logged,
      get-insert row.device device (enqueued_log s row (log_of row.device o)) o.logs,
    );
    older = held.older;
    last = held.last;
    named = held.named;
    there = ground (arith, held.there, get-insert row.id kept.id (new_record s row) o.records);
  }

  -- Whatever rows follow, the log ends with the last of the device's.
  Named-enqueue_all :
      (all : List Row) (kept : Option Row) (o : Outbox)
      → distinct (row_ids all) ≡ true
      → ((r : Row) → kept ≡ some r → Named s key device o r × (contains r.id (row_ids all) ≡ false))
      → (row : Row) → newest (λ r. r.device) device kept all ≡ some row
      → Named s key device (enqueue_all s all o) row
  unfolding enqueue_all distinct contains
  Named-enqueue_all [] kept o d held row h = (held row h).0
  Named-enqueue_all (r ∷ all) kept o d held row h = elim (Bool-cases (r.device == device)) [
    | inl mine ↦
        Named-enqueue_all all (some r) (enqueue s r o) (ground (arith, d))
          (λ q e.
            subst
              (λ x. Named s key device (enqueue s r o) x × (contains x.id (row_ids all) ≡ false))
              (some_injective e)
              (Named-enqueue r o (ground (arith, eq_iff r.device device)), ground (arith, d)))
          row
          (sym (ap (λ b. newest (λ x. x.device) device (if b then some r else kept) all) mine) ∙ h)
    | inr other ↦
        Named-enqueue_all all kept (enqueue s r o) (ground (arith, d))
          (λ q e.
            let (named, apart) = held q e in
            (
              Named-enqueue_other r q o other
                  (ground (arith, apart, eq_iff q.id r.id, eq_iff r.id q.id)) named,
              ground (arith, apart),
            ))
          row
          (sym (ap (λ b. newest (λ x. x.device) device (if b then some r else kept) all) other) ∙ h)
  ]

  Named-armed :
      (o : Outbox) (row : Row)
      → Named s key device o row
      → Named s key device (arm s (expect s o)) row
  Named-armed o row held =
      let (logs, records) = armed_keeps s o in
      record {
        log = held.log;
        logged = ap (Dict.get device) logs ∙ held.logged;
        older = held.older;
        last = held.last;
        named = held.named;
        there = ap (Dict.get row.id) records ∙ held.there;
      }

  -- After an accepted submission, the last of a device's rows is the one that its log ends with.
  pub Named-applied :
      (all : List Row) (o : Outbox)
      → distinct (row_ids all) ≡ true
      → (row : Row) → newest (λ r. r.device) device none all ≡ some row
      → Named s key device (arm s (expect s (enqueue_all s all o))) row
  Named-applied all o d row h =
      Named-armed (enqueue_all s all o) row
        (Named-enqueue_all all none o d (λ r e. absurd (cc)) row h)
