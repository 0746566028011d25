-- ===== src/Relay/Recovered.antt =====
-- After a recovery nothing of the device is in flight.
use sismatic.Common.{
  ℕ, suc, String, ◌≡◌, refl, sym, ap, ◌∙◌, subst, true, false, Option, none, some, List, [], ◌∷◌,
  ◌==◌, eq_iff, eq_refl, arith, contains, collect, select, inl, inr, Bool-cases, Option-cases,
}
use sismatic.Common.Dict
use sismatic.Common.Dict.{Dict, get-insert}
use sismatic.Api.{WriteRecord, Timestamp, RecordingState, is_in_flight}
use sismatic.Outbox.State.{Outbox, Chrono, log_of, set_log}
use sismatic.Outbox.Queries.{in_flight_rows}
use sismatic.Outbox.Settle.{settle, observe}
use sismatic.Relay.Recovery.{stranded_outcome, observe_state, settle_stranded, recover}
use sismatic.Relay.Own.{OwnIds}
use sismatic.Relay.Landing.{flying, kept_history, settle_others, settle_lands, settle_history}

settle_stranded_others :
    (c : Chrono) (seen : Option RecordingState) (clock : ℕ → Timestamp) (n : ℕ)
    (rows : List WriteRecord) (o : Outbox) (j : String)
    → flying j o.records ≡ false
    → flying j (settle_stranded c seen clock n rows o).records ≡ false
unfolding settle_stranded
settle_stranded_others c seen clock n [] o j e = e
settle_stranded_others c seen clock n (r ∷ rest) o j e =
    settle_stranded_others c seen clock (suc n) rest _ j
      (settle_others c r.id (stranded_outcome r.intent seen) (clock n) o j e)

abbrev ids_of : List WriteRecord → List String
ids_of [] = []
ids_of (r ∷ rest) = r.id ∷ ids_of rest

settle_stranded_lands :
    (c : Chrono) (seen : Option RecordingState) (clock : ℕ → Timestamp) (n : ℕ)
    (rows : List WriteRecord) (o : Outbox) (j : String)
    → contains j (ids_of rows) ≡ true
    → flying j (settle_stranded c seen clock n rows o).records ≡ false
unfolding settle_stranded contains
settle_stranded_lands c seen clock n [] o j m = absurd (ground arith)
settle_stranded_lands c seen clock n (r ∷ rest) o j m =
    let outcome = stranded_outcome r.intent seen in
    elim (Bool-cases (j == r.id)) [
      | inl mine ↦ settle_stranded_others c seen clock (suc n) rest _ j (
          subst (λ k. flying k (settle c r.id outcome (clock n) o).1.records ≡ false)
            (ground (arith, eq_iff j r.id)) (settle_lands c r.id outcome (clock n) o))
      | inr other ↦ settle_stranded_lands c seen clock (suc n) rest _ j (ground (arith, other))
    ]

settle_stranded_history :
    (c : Chrono) (seen : Option RecordingState) (clock : ℕ → Timestamp) (n : ℕ)
    (rows : List WriteRecord) (o : Outbox) (device : String)
    → (log_of device (settle_stranded c seen clock n rows o)).history ≡ (log_of device o).history
unfolding settle_stranded
settle_stranded_history c seen clock n [] o device = refl
settle_stranded_history c seen clock n (r ∷ rest) o device =
    settle_stranded_history c seen clock (suc n) rest _ device
    ∙ settle_history c r.id (stranded_outcome r.intent seen) (clock n) o device

-- The rows of a history that are in flight.
abbrev rows_of : Dict WriteRecord → List String → List WriteRecord
rows_of records history =
    select (λ r. is_in_flight r.status) (collect (λ id. Dict.get id records) history)

in_flight_rows_of :
    (device : String) (o : Outbox)
    → in_flight_rows device o ≡ rows_of o.records (log_of device o).history
unfolding in_flight_rows select collect
in_flight_rows_of device o = ground arith

none_flying :
    (records : Dict WriteRecord) (history : List String)
    → ((j : String) → contains j history ≡ true → flying j records ≡ false)
    → rows_of records history ≡ []
unfolding select collect contains
none_flying records [] h = refl
none_flying records (id ∷ history) h =
    let rest = none_flying records history (λ j m. h j (ground arith)) in
    let mine = h id (ground (arith, eq_refl id)) in ground (arith, rest, mine)

flying_listed :
    (records : Dict WriteRecord)
    → OwnIds records
    → (history : List String) (j : String) → contains j history ≡ true
    → flying j records ≡ true
    → contains j (ids_of (rows_of records history)) ≡ true
unfolding select collect contains
flying_listed records own [] j m up = absurd (ground arith)
flying_listed records own (id ∷ history) j m up = elim (Option-cases (Dict.get id records)) [
  | inl e ↦
      let elsewhere : (j == id) ≡ false = ground (arith, eq_iff j id) in
      let rest = flying_listed records own history j (ground (arith, elsewhere)) up in
      ground (arith, e, rest)
  | inr (r, e) ↦
      let named = own id r e in
      elim (Bool-cases (j == id)) [
        | inl mine ↦ ground (arith, e, named, eq_iff j id, eq_refl j)
        | inr other ↦
            let rest = flying_listed records own history j (ground (arith, other)) up in
            ground (arith, e, named, rest)
      ]
]

observe_state_keeps :
    (device other : String) (seen : Option RecordingState) (o : Outbox)
    → ((observe_state device seen o).records ≡ o.records)
      × ((log_of other (observe_state device seen o)).history ≡ (log_of other o).history)
unfolding observe_state observe
observe_state_keeps device other none o = (refl, refl)
observe_state_keeps device other (some s) o =
    (unfold set_log in refl, kept_history device other _ o refl)

-- After a recovery none of the device's writes is in flight, whatever the device answers, in an
-- outbox whose records stand under their own ids.
pub recover_lands :
    (c : Chrono) (device : String) (seen : Option RecordingState) (clock : ℕ → Timestamp)
    (o : Outbox)
    → OwnIds o.records
    → in_flight_rows device (recover c device seen clock o) ≡ []
recover_lands c device seen clock o own = by_rows (in_flight_rows device o) refl
  where
    history : List String
    history = (log_of device o).history

    landed_all :
        (rows : List WriteRecord)
        → in_flight_rows device o ≡ rows
        → in_flight_rows device (settle_stranded c seen clock 0 rows (observe_state device seen o))
          ≡ []
    landed_all rows e =
        let start = observe_state device seen o in
        let (same_records, same_history) = observe_state_keeps device device seen o in
        let end = settle_stranded c seen clock 0 rows start in
        let kept : (log_of device end).history ≡ history =
          settle_stranded_history c seen clock 0 rows start device ∙ same_history in
        in_flight_rows_of device end
        ∙ ap (rows_of end.records) kept
        ∙ none_flying end.records history (λ j m. elim (Bool-cases (flying j o.records)) [
          | inl up ↦ settle_stranded_lands c seen clock 0 rows start j (
              subst (λ l. contains j (ids_of l) ≡ true) (sym (in_flight_rows_of device o) ∙ e)
                (flying_listed o.records own history j m up))
          | inr not_up ↦
              settle_stranded_others c seen clock 0 rows start j
                (ap (flying j) same_records ∙ not_up)
        ])

    by_rows :
        (rows : List WriteRecord)
        → in_flight_rows device o ≡ rows
        → in_flight_rows device (recover c device seen clock o) ≡ []
    by_rows [] e = unfold recover in rw (e, recover) e
    by_rows (r ∷ rest) e = unfold recover in rw (e, recover) (landed_all (r ∷ rest) e)
