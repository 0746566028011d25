-- ===== src/Outbox/Lives.antt =====
-- The life of a write: what becomes of its record over a history.
use sismatic.Common.{
  ℕ, String, ◌≡◌, refl, sym, ◌∙◌, Bool, true, ◌||◌, none, some, arith, subst, ◌⊎◌, inl, inr, ◌<◌,
  ◌≤◌, ◌^◌, ltb, leb, Bool-cases, eq_iff, ◌==◌, if◌then◌else◌,
}
use sismatic.Common.Dict
use sismatic.Common.Dict.{Dict, get-insert, get-empty}
use sismatic.Api.{WriteRecord, WriteStatus, Timestamp, is_pending, is_in_flight}
use sismatic.Outbox.State.{Outbox, Chrono, with_max_attempts}
use sismatic.Outbox.Submit.{new_record}
use sismatic.Outbox.Queues.{WellFormed}
use sismatic.Outbox.History.{Reach, here, next, Reach-keeps, with_max_attempts-WellFormed}
use sismatic.Outbox.Changes.{Change, Stable}
use sismatic.Outbox.Changing.{Step-Holds}

-- The two records are of one write.
pub record SameWrite (r r' : WriteRecord) : Type 0 where
  pub id : r'.id ≡ r.id
  pub device : r'.device ≡ r.device
  pub intent : r'.intent ≡ r.intent
  pub batch : r'.batch ≡ r.batch
  pub epoch : r'.epoch ≡ r.epoch
  pub enqueued_at : r'.enqueued_at ≡ r.enqueued_at

-- The record is unchanged, or its write was not over and is still the same write.
abbrev pub FollowsOn : WriteRecord → WriteRecord → Type 0
FollowsOn r r' =
    (r' ≡ r) ⊎ (((is_pending r.status || is_in_flight r.status) ≡ true) × SameWrite r r')

-- Every record of the first map has a record in the second that follows on from it.
abbrev pub Kept : Dict WriteRecord → Dict WriteRecord → Type 0
Kept old records =
    (id : String) (r : WriteRecord)
    → Dict.get id old ≡ some r
    → (r' : WriteRecord) × (Dict.get id records ≡ some r') × FollowsOn r r'

updated-SameWrite :
    (r : WriteRecord) (v : WriteStatus) (n : ℕ) (t u : Timestamp)
    → SameWrite r (record r { status = v; attempts = n; updated_at = t; not_before = u })
updated-SameWrite r v n t u = record {
  id = refl;
  device = refl;
  intent = refl;
  batch = refl;
  epoch = refl;
  enqueued_at = refl;
}

pub Change-SameWrite : {M : ℕ} {r r' : WriteRecord} → Change M r r' → SameWrite r r'
Change-SameWrite (Change.claims at r _) = updated-SameWrite r _ _ _ _
Change-SameWrite (Change.expires at r _) = updated-SameWrite r _ _ _ _
Change-SameWrite (Change.cancels reason r _) = updated-SameWrite r _ _ _ _
Change-SameWrite (Change.settles v at r _ _) = updated-SameWrite r _ _ _ _
Change-SameWrite (Change.retries t at r _ _) = updated-SameWrite r _ _ _ _

-- Only a row that is not over changes.
pub Change-open :
    {M : ℕ} {r r' : WriteRecord}
    → Change M r r'
    → (is_pending r.status || is_in_flight r.status) ≡ true
Change-open (Change.claims at r h) = ground arith
Change-open (Change.expires at r h) = ground arith
Change-open (Change.cancels reason r h) = ground arith
Change-open (Change.settles v at r h _) = ground arith
Change-open (Change.retries t at r h _) = ground arith

SameWrite-trans : {r r' r'' : WriteRecord} → SameWrite r r' → SameWrite r' r'' → SameWrite r r''
SameWrite-trans a b = record {
  id = b.id ∙ a.id;
  device = b.device ∙ a.device;
  intent = b.intent ∙ a.intent;
  batch = b.batch ∙ a.batch;
  epoch = b.epoch ∙ a.epoch;
  enqueued_at = b.enqueued_at ∙ a.enqueued_at;
}

FollowsOn-trans : {r r' r'' : WriteRecord} → FollowsOn r r' → FollowsOn r' r'' → FollowsOn r r''
FollowsOn-trans {r} {r'} {r''} (inl e) g = subst (λ x. FollowsOn x r'') e g
FollowsOn-trans {r} {r'} {r''} (inr (h, s)) (inl e) = subst (FollowsOn r) (sym e) (inr (h, s))
FollowsOn-trans (inr (h, s)) (inr (_, t)) = inr (h, SameWrite-trans s t)

Kept-refl : (records : Dict WriteRecord) → Kept records records
Kept-refl records id r e = (r, e, inl refl)

Kept-trans : (a b c : Dict WriteRecord) → Kept a b → Kept b c → Kept a c
Kept-trans a b c h k id r e =
    let (r', e', f) = h id r e in let (r'', e'', g) = k id r' e' in (r'', e'', FollowsOn-trans f g)

-- A change of one record, and a new one, keep what is there.
insert-Kept :
    {M : ℕ} (id : String) (r r' : WriteRecord) (records : Dict WriteRecord)
    → Dict.get id records ≡ some r
    → Change M r r'
    → Kept records (Dict.insert id r' records)
insert-Kept id r r' records found change j s e = elim (Bool-cases (id == j)) [
  | inl mine ↦
      let same : r ≡ s = ground (arith, eq_iff id j) in
      (
        r',
        ground (arith, get-insert id j r' records),
        subst (λ x. FollowsOn x r') same (inr (Change-open change, Change-SameWrite change)),
      )
  | inr other ↦ (s, ground (arith, get-insert id j r' records), inl refl)
]

add-Kept :
    (id : String) (r : WriteRecord) (records : Dict WriteRecord)
    → Dict.get id records ≡ none
    → Kept records (Dict.insert id r records)
add-Kept id r records new j s e =
    (s, ground (arith, get-insert id j r records, eq_iff id j), inl refl)

Kept-Stable : (old : Dict WriteRecord) (M : ℕ) → Stable (Kept old) M
Kept-Stable old M = record {
  changes = λ id r r' records found change h.
      Kept-trans _ _ _ h (insert-Kept id r r' records found change);
  adds = λ s row records new h. Kept-trans _ _ _ h (add-Kept row.id (new_record s row) records new);
}

Reach-Kept : {c : Chrono} {o o' : Outbox} → Reach c o o' → WellFormed o → Kept o.records o'.records
Reach-Kept {o} here w = Kept-refl o.records
Reach-Kept {c} {o} (next {o = q} r s) w =
    Step-Holds (Kept o.records) q.max_attempts (Kept-Stable o.records q.max_attempts) s
      (Reach-keeps r w) (ground arith) (Reach-Kept r w)

-- Over any history whose submissions bring new and different ids, from well-formed queues no record
-- is lost: under its id there is still a record, of the same write, for the same device, with the
-- same intent, batch, epoch and time of submission; and a write that has succeeded, failed or been
-- canceled keeps its record unchanged.
pub Reach-FollowsOn :
    (c : Chrono) (o o' : Outbox) (id : String) (r : WriteRecord)
    → Reach c o o'
    → WellFormed o
    → Dict.get id o.records ≡ some r
    → (r' : WriteRecord) × (Dict.get id o'.records ≡ some r') × FollowsOn r r'
Reach-FollowsOn c o o' id r reach w e = Reach-Kept reach w id r e

-- A pending row is below the limit, any other row at most at it.
abbrev pub within_budget : ℕ → WriteRecord → Bool
within_budget M r = if is_pending r.status then ltb r.attempts M else leb r.attempts M

abbrev pub AllWithin : ℕ → Dict WriteRecord → Type 0
AllWithin M records =
    (id : String) (r : WriteRecord) → Dict.get id records ≡ some r → within_budget M r ≡ true

-- The limit on attempts is at most `M` in every state of the history.
abbrev pub Capped : {c : Chrono} {start o : Outbox} → ℕ → Reach c start o → Type 0
Capped {start} M here = start.max_attempts ≤ M
Capped {o} M (next r _) = Capped M r × (o.max_attempts ≤ M)

Change-within :
    {M : ℕ} {r r' : WriteRecord}
    → M < 2 ^ 32
    → Change M r r'
    → within_budget M r ≡ true
    → within_budget M r' ≡ true
Change-within {M} small (Change.claims at r h) b = ground arith
Change-within small (Change.expires at r h) b = ground arith
Change-within small (Change.cancels reason r h) b = ground arith
Change-within small (Change.settles v at r h over) b = ground arith
Change-within small (Change.retries t at r h below) b = ground arith

AllWithin-Stable : (M : ℕ) → 0 < M → M < 2 ^ 32 → Stable (AllWithin M) M
AllWithin-Stable M pos small = record {
  changes = λ id r r' records found change h j s e. elim (Bool-cases (id == j)) [
    | inl mine ↦
        let same : r' ≡ s = ground (arith, get-insert id j r' records) in
        subst (λ x. within_budget M x ≡ true) same (Change-within small change (h id r found))
    | inr other ↦ h j s (ground (arith, get-insert id j r' records))
  ];
  adds = λ s row records new h j t e. elim (Bool-cases (row.id == j)) [
    | inl mine ↦
        let same : new_record s row ≡ t =
          ground (arith, get-insert row.id j (new_record s row) records) in
        subst (λ x. within_budget M x ≡ true) same (unfold new_record in ground arith)
    | inr other ↦ h j t (ground (arith, get-insert row.id j (new_record s row) records))
  ];
}

Capped-end :
    {c : Chrono} {start o : Outbox} (M : ℕ) (r : Reach c start o) → Capped M r → o.max_attempts ≤ M
Capped-end M here h = h
Capped-end M (next r s) h = h.1

Reach-AllWithin :
    {c : Chrono} {start o : Outbox} (M : ℕ)
    → 0 < M
    → M < 2 ^ 32
    → (r : Reach c start o) → Capped M r
    → WellFormed start
    → AllWithin M start.records
    → AllWithin M o.records
Reach-AllWithin M pos small here h w a = a
Reach-AllWithin M pos small (next r s) h w a =
    Step-Holds (AllWithin M) M (AllWithin-Stable M pos small) s (Reach-keeps r w)
      (Capped-end M r h.0) (Reach-AllWithin M pos small r h.0 w a)

-- Over a history from an empty outbox, whose submissions bring new and different ids and in which
-- the limit on attempts is never above a positive number that 32 bits hold, no write has been
-- attempted more often than that number, and one that waits has been attempted less often.
pub Reach-within_budget :
    (c : Chrono) (n M : ℕ) (o : Outbox) (reach : Reach c (with_max_attempts n) o) (id : String)
    (r : WriteRecord)
    → 0 < M
    → M < 2 ^ 32
    → Capped M reach
    → Dict.get id o.records ≡ some r
    → within_budget M r ≡ true
unfolding with_max_attempts
Reach-within_budget c n M o reach id r pos small capped =
    Reach-AllWithin M pos small reach capped (with_max_attempts-WellFormed n)
      (λ j s e. absurd (cc (get-empty {V = WriteRecord} j, e))) id r
