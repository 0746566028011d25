-- ===== src/Relay/Own.antt =====
-- Every record stands under its own id.
use sismatic.Common.{ℕ, String, ◌≡◌, sym, ap, ◌∙◌, some, ◌==◌, eq_iff, arith, Bool-cases, inl, inr}
use sismatic.Common.Dict
use sismatic.Common.Dict.{Dict, get-insert, get-empty}
use sismatic.Api.{WriteRecord}
use sismatic.Outbox.State.{Outbox, Chrono, with_max_attempts}
use sismatic.Outbox.Submit.{new_record}
use sismatic.Outbox.History.{Reach, here, next, Reach-keeps, with_max_attempts-WellFormed}
use sismatic.Outbox.Changes.{Stable}
use sismatic.Outbox.Changing.{Step-Holds}
use sismatic.Outbox.Lives.{Change-SameWrite}

abbrev pub OwnIds : Dict WriteRecord → Type 0
OwnIds records = (id : String) (r : WriteRecord) → Dict.get id records ≡ some r → r.id ≡ id

OwnIds-Stable : (M : ℕ) → Stable OwnIds M
OwnIds-Stable M = record {
  changes = λ id r r' records found change h j s e. elim (Bool-cases (id == j)) [
    | inl mine ↦
        let same : r' ≡ s = ground (arith, get-insert id j r' records) in
        ap (λ (x : WriteRecord). x.id) (sym same)
        ∙ (Change-SameWrite change).id
        ∙ h id r found
        ∙ ground (arith, eq_iff id j)
    | inr other ↦ h j s (ground (arith, get-insert id j r' records))
  ];
  adds = λ s row records new h j t e. elim (Bool-cases (row.id == j)) [
    | inl mine ↦
        let same : new_record s row ≡ t =
          ground (arith, get-insert row.id j (new_record s row) records) in
        ap (λ (x : WriteRecord). x.id) (sym same)
        ∙ (unfold new_record in ground (arith, eq_iff row.id j))
    | inr other ↦ h j t (ground (arith, get-insert row.id j (new_record s row) records))
  ];
}

pub Reach-OwnIds :
    {c : Chrono} (n : ℕ) {o : Outbox} → Reach c (with_max_attempts n) o → OwnIds o.records
unfolding with_max_attempts
Reach-OwnIds n here = λ id r e. absurd (cc (get-empty {V = WriteRecord} id, e))
Reach-OwnIds n (next {o = q} r s) =
    Step-Holds OwnIds q.max_attempts (OwnIds-Stable q.max_attempts) s
      (Reach-keeps r (with_max_attempts-WellFormed n)) (ground arith) (Reach-OwnIds n r)
