-- ===== src/Outbox/Queues.antt =====
-- What a queue of the outbox holds, and the lemmas by which an operation's effect on one queue and
-- one record is carried over to all of them.
use sismatic.Common.{
  String, ◌≡◌, refl, ◌∙◌, Bool, true, false, not, ◌&&◌, Option, none, some, List, [], ◌∷◌, ◌++◌,
  ◌==◌, eq_iff, arith, contains, contains-push, contains-select, select, inl, inr, Bool-cases,
  if◌then◌else◌,
}
use sismatic.Common.Dict
use sismatic.Common.Dict.{Dict, get-insert}
use sismatic.Api.{WriteRecord, is_pending}
use sismatic.Outbox.State.{DeviceLog, Outbox, log_of, set_log, set_record}

abbrev pub names_pending : String → Option WriteRecord → Bool
names_pending device none = false
names_pending device (some r) = (r.device == device) && is_pending r.status

-- The id names a pending row of the device.
unfoldable pub is_queued : Dict WriteRecord → String → String → Bool
is_queued records device id = names_pending device (Dict.get id records)

-- Every id of the queue names a pending row of the device, and none stands twice.
unfoldable pub well_queued : Dict WriteRecord → String → List String → Bool
unfolding is_queued
well_queued records device [] = true
well_queued records device (id ∷ ids) =
    is_queued records device id && (not (contains id ids) && well_queued records device ids)

abbrev pub queue_of : String → Outbox → List String
queue_of device o = (log_of device o).queue

pub record WellFormed (o : Outbox) : Type 0 where
  pub queues : (device : String) → well_queued o.records device (queue_of device o) ≡ true

-- The id stands in no queue.
abbrev pub Absent : String → Outbox → Type 0
Absent id o = (device : String) → contains id (queue_of device o) ≡ false

pub log_of-set_log :
    (k j : String) (log : DeviceLog) (o : Outbox)
    → log_of j (set_log k log o) ≡ (if k == j then log else log_of j o)
unfolding set_log
log_of-set_log k j log o = ground (arith, get-insert k j log o.logs)

module _ (records : Dict WriteRecord) (device : String) where
  pub well_queued-insert :
      (id : String) (r : WriteRecord) (ids : List String)
      → contains id ids ≡ false
      → well_queued (Dict.insert id r records) device ids ≡ well_queued records device ids
  unfolding well_queued contains
  well_queued-insert id r [] h = refl
  well_queued-insert id r (x ∷ ids) h =
      ground (arith, well_queued-insert id r ids, get-insert id x r records, eq_iff id x)

  pub is_queued_of_contains :
      (id : String) (ids : List String)
      → well_queued records device ids ≡ true
      → contains id ids ≡ true
      → is_queued records device id ≡ true
  unfolding well_queued contains
  is_queued_of_contains id [] w h = ground arith
  is_queued_of_contains id (x ∷ ids) w h = ground (arith, is_queued_of_contains id ids, eq_iff id x)

  pub not_contains :
      (id : String) (ids : List String)
      → well_queued records device ids ≡ true
      → is_queued records device id ≡ false
      → contains id ids ≡ false
  not_contains id ids w h = ground (arith, is_queued_of_contains id ids)

  pub well_queued-push :
      (id : String) (ids : List String)
      → well_queued records device ids ≡ true
      → contains id ids ≡ false
      → is_queued records device id ≡ true
      → well_queued records device (ids ++ id ∷ []) ≡ true
  unfolding well_queued contains
  well_queued-push id [] w absent q = ground arith
  well_queued-push id (x ∷ ids) w absent q =
      ground (arith, well_queued-push id ids, contains-push x id ids, eq_iff id x, eq_iff x id)

  pub well_queued-select :
      (p : String → Bool) (ids : List String)
      → well_queued records device ids ≡ true
      → well_queued records device (select p ids) ≡ true
  unfolding well_queued select
  well_queued-select p [] w = refl
  well_queued-select p (x ∷ ids) w =
      ground (arith, well_queued-select p ids, contains-select p x ids)

names_pending_elsewhere :
    (device other : String) (m : Option WriteRecord)
    → names_pending device m ≡ true
    → (device == other) ≡ false
    → names_pending other m ≡ false
names_pending_elsewhere device other none q ne = refl
names_pending_elsewhere device other (some r) q ne =
    ground (arith, eq_iff r.device device, eq_iff r.device other, eq_iff device other)

-- A pending row of one device is no row of another.
pub is_queued_elsewhere :
    (records : Dict WriteRecord) (id device other : String)
    → is_queued records device id ≡ true
    → (device == other) ≡ false
    → is_queued records other id ≡ false
unfolding is_queued
is_queued_elsewhere records id device other =
    names_pending_elsewhere device other (Dict.get id records)

module _ {o : Outbox} (w : WellFormed o) where
  -- Only the log's queue matters.
  pub WellFormed-set_log :
      (device : String) (log : DeviceLog)
      → well_queued o.records device log.queue ≡ true
      → WellFormed (set_log device log o)
  unfolding set_log
  WellFormed-set_log device log h = record {
    queues = λ j. ground (arith, w.queues j, log_of-set_log device j log o, eq_iff device j);
  }

  -- A record that no queue names may change in any way.
  pub WellFormed-set_record :
      (id : String) (r : WriteRecord) → Absent id o → WellFormed (set_record id r o)
  unfolding set_record
  WellFormed-set_record id r absent = record {
    queues = λ j. well_queued-insert o.records j id r (queue_of j o) (absent j) ∙ w.queues j;
  }

  -- One record and the log of its device change together.
  pub WellFormed-move :
      (device id : String) (r : WriteRecord) (log : DeviceLog)
      → ((other : String) → (device == other) ≡ false → is_queued o.records other id ≡ false)
      → well_queued (Dict.insert id r o.records) device log.queue ≡ true
      → WellFormed (set_record id r (set_log device log o))
  unfolding set_record set_log
  WellFormed-move device id r log elsewhere h = record {
    queues = λ j. elim (Bool-cases (device == j)) [
      | inl here ↦ ground (arith, log_of-set_log device j log o, eq_iff device j)
      | inr there ↦ ground (
        arith,
        log_of-set_log device j log o,
        well_queued-insert o.records j id r (queue_of j o),
        not_contains o.records j id (queue_of j o) (w.queues j) (elsewhere j there),
        w.queues j,
      )
    ];
  }

  -- An id that the queue of its device names, or that names no pending row, is in no other queue.
  pub Absent-of_not_queued :
      (id : String) → ((device : String) → is_queued o.records device id ≡ false) → Absent id o
  Absent-of_not_queued id h device =
      not_contains o.records device id (queue_of device o) (w.queues device) (h device)
