-- ===== src/Outbox/Rendezvous.antt =====
-- What a released batch claims: the members that were ready, each with its own row of the batch.
use sismatic.Common.{
  String, ◌≡◌, refl, sym, ap, ◌∙◌, subst, true, false, ◌&&◌, Option, none, some, List, [], ◌∷◌, map,
  ◌==◌, eq_iff, eq_refl, arith, contains, distinct, inl, inr, str_le, all, Option-cases,
}
use sismatic.Common.Dict
use sismatic.Common.Dict.{Dict, get-insert}
use sismatic.Api.{WriteRecord, Timestamp, in_flight}
use sismatic.Store.Policy.{Result, ok}
use sismatic.Outbox.State.{DeviceLog, Outbox, log_of, set_log, set_record}
use sismatic.Outbox.Submit.{in_batch}
use sismatic.Outbox.Drain.{
  WriteError, claimed, claim_front, claim_head, head_record, front, is_ready_for, claim_heads,
}
use sismatic.Outbox.Queues.{
  is_queued, well_queued, queue_of, WellFormed, log_of-set_log, not_contains, is_queued_elsewhere,
}
use sismatic.Outbox.Claims.{log_of_found, head_is_queued, queued_record, claim_head-WellFormed}

abbrev lookup_front : List String → Dict WriteRecord → Option WriteRecord
lookup_front queue records = elim (front queue) [ none ↦ none | some k ↦ Dict.get k records ]

lookup_front-insert :
    (id : String) (r : WriteRecord) (queue : List String) (records : Dict WriteRecord)
    → contains id queue ≡ false
    → lookup_front queue (Dict.insert id r records) ≡ lookup_front queue records
unfolding contains
lookup_front-insert id r [] records h = refl
lookup_front-insert id r (k ∷ rest) records h = ground (arith, get-insert id k r records)

head_record-eq-lookup_front :
    (device : String) (o : Outbox)
    → head_record device o ≡ lookup_front (queue_of device o) o.records
head_record-eq-lookup_front device o = ground arith

-- A row of one device changes, with its log: another device's head stays what it was.
head_record_elsewhere :
    {o : Outbox}
    → WellFormed o
    → (device other id : String) (r : WriteRecord) (log : DeviceLog) → (device == other) ≡ false
    → is_queued o.records device id ≡ true
    → head_record other (set_record id r (set_log device log o)) ≡ head_record other o
unfolding set_record
head_record_elsewhere {o} w device other id r log ne q =
    let after = set_record id r (set_log device log o) in
    let absent =
      not_contains o.records other id (queue_of other o) (w.queues other)
        (is_queued_elsewhere o.records id device other q ne) in
    let same_log : log_of other (set_log device log o) ≡ log_of other o =
      ground (arith, log_of-set_log device other log o) in
    head_record-eq-lookup_front other after
    ∙ ap (λ (l : DeviceLog). lookup_front l.queue after.records) same_log
    ∙ unfold set_log in
      lookup_front-insert id r (queue_of other o) o.records absent
      ∙ sym (head_record-eq-lookup_front other o)

claim_front_elsewhere :
    {o : Outbox}
    → WellFormed o
    → (device other : String) (at : Timestamp) (log : DeviceLog) (queue : List String)
    → (device == other) ≡ false
    → queue_of device o ≡ queue
    → head_record other (claim_front device at log queue o).1 ≡ head_record other o
unfolding claim_front
claim_front_elsewhere w device other at log [] ne e = refl
claim_front_elsewhere {o} w device other at log (id ∷ rest) ne e =
    let h =
      head_is_queued o.records device id rest
        (subst (λ q. well_queued o.records device q ≡ true) e (w.queues device)) in
    let (r, found, _, _) = queued_record o.records device id h.0 in
    rw (found, claim_front) (head_record_elsewhere w device other id (claimed at r) _ ne h.0)

-- Claiming for one device leaves every other device's head alone.
head_record-claim_head :
    {o : Outbox}
    → WellFormed o
    → (device other : String) (at : Timestamp) → (device == other) ≡ false
    → head_record other (claim_head device at o).1 ≡ head_record other o
unfolding claim_head
head_record-claim_head {o} w device other at ne = elim (Option-cases (Dict.get device o.logs)) [
  | inl e ↦ rw (e, claim_head)
  | inr (log, e) ↦
      rw (e, claim_head)
        (claim_front_elsewhere w device other at log log.queue ne
          (ap (λ (l : DeviceLog). l.queue) (log_of_found device o log e)))
]

is_ready_for-claim_head :
    {o : Outbox}
    → WellFormed o
    → (batch device other : String) (at : Timestamp) → (device == other) ≡ false
    → is_ready_for (claim_head device at o).1 batch at other ≡ is_ready_for o batch at other
unfolding is_ready_for
is_ready_for-claim_head w batch device other at ne =
    ap
      (λ (m : Option WriteRecord). elim m [
        | none ↦ false
        | some r ↦ in_batch batch r && str_le r.not_before at
      ])
      (head_record-claim_head w device other at ne)

-- The claim takes the member's own row of the batch.
abbrev TakesRowOf : String → String → Result (Option WriteRecord) WriteError → Type 0
TakesRowOf batch member result =
    (r : WriteRecord) × (result ≡ ok (some r))
    × (r.device ≡ member)
    × (in_batch batch r ≡ true)
    × (r.status ≡ in_flight)

claim_front_ready :
    {o : Outbox}
    → WellFormed o
    → (batch member : String) (at : Timestamp) (log : DeviceLog) (queue : List String)
    → queue_of member o ≡ queue
    → is_ready_for o batch at member ≡ true
    → TakesRowOf batch member (claim_front member at log queue o).0
unfolding claim_front is_ready_for
claim_front_ready {o} w batch member at log [] e ready =
    absurd (ground (arith, head_record-eq-lookup_front member o))
claim_front_ready {o} w batch member at log (id ∷ rest) e ready =
    let h =
      head_is_queued o.records member id rest
        (subst (λ q. well_queued o.records member q ≡ true) e (w.queues member)) in
    let (r, found, same, _) = queued_record o.records member id h.0 in
    (
      claimed at r,
      rw (found, claim_front),
      same,
      ground (arith, head_record-eq-lookup_front member o),
      refl,
    )

claim_head_ready :
    {o : Outbox}
    → WellFormed o
    → (batch member : String) (at : Timestamp) → is_ready_for o batch at member ≡ true
    → TakesRowOf batch member (claim_head member at o).0
unfolding claim_head
claim_head_ready {o} w batch member at ready = elim (Option-cases (Dict.get member o.logs)) [
  | inl e ↦ absurd (unfold is_ready_for in ground arith)
  | inr (log, e) ↦
      rw (e, claim_head)
        (claim_front_ready w batch member at log log.queue
          (ap (λ (l : DeviceLog). l.queue) (log_of_found member o log e)) ready)
]

-- Every listed member is ready.
abbrev pub AllReady : Outbox → String → Timestamp → List String → Type 0
AllReady o batch at members =
    (member : String) → contains member members ≡ true → is_ready_for o batch at member ≡ true

pub claim_heads_ready :
    (batch : String) (at : Timestamp) (members : List String) {o : Outbox}
    → WellFormed o
    → distinct members ≡ true
    → AllReady o batch at members
    → (rs : List WriteRecord) × ((claim_heads members at o).0 ≡ ok rs)
      × (map (λ r. r.device) rs ≡ members)
      × (all (in_batch batch) rs ≡ true)
unfolding claim_heads distinct contains all
claim_heads_ready batch at [] w d ready = ([], refl, refl, refl)
claim_heads_ready batch at (member ∷ members) {o} w d ready =
    let (r, taken, same, mine, _) =
      claim_head_ready w batch member at (ready member (ground (arith, eq_refl member))) in
    let (rs, e, devices, theirs) =
      claim_heads_ready batch at members {o = (claim_head member at o).1}
        (claim_head-WellFormed w member at) (ground arith)
        (λ j m.
          is_ready_for-claim_head w batch member j at (ground (arith, eq_iff member j))
          ∙ ready j (ground arith)) in
    (r ∷ rs, rw (taken, claim_heads, e), ground arith, ground arith)
