-- ===== src/Http/Paging.antt =====
-- crates/sismatic-http-api/src/handlers/reads.rs: the field of a route, and the page of a history.
use Prim.Native.String.{◌++◌ as ◌<>◌, char_at}
use sismatic.Common.{
  ℕ, zero, suc, ◌-◌, String, Option, none, some, List, [], ◌∷◌, ◌==◌, ltb, length, replace_char,
  to_ascii_uppercase, if◌then◌else◌,
}
use sismatic.Api.{Read, ReadQuery, TimeSpan}
use sismatic.Http.Failure.{ApiFailure, bad_request}

unfoldable pub normalize_field : String → String
unfolding replace_char to_ascii_uppercase
normalize_field raw = to_ascii_uppercase (replace_char (char_at "-" 0) (char_at "_" 0) raw)

unfoldable pub span_of : ReadQuery → TimeSpan
span_of query = record {
  start = elim query.start [ some at ↦ at | none ↦ "0000-01-01T00:00:00Z" ];
  end = elim query.end [ some at ↦ at | none ↦ "9999-12-31T23:59:59Z" ];
}

abbrev pub page_limit : Option ℕ → ℕ
page_limit none = 1000
page_limit (some limit) = if ltb 10000 limit then 10000 else limit

-- `Vec::drain(..n)`.
unfoldable pub drain {ℓ} : {A : Type ℓ} → ℕ → List A → List A
drain zero xs = xs
drain (suc n) [] = []
drain (suc n) (x ∷ xs) = drain n xs

-- The most recent rows stay.
unfoldable pub truncate : List Read → Option ℕ → List Read
unfolding drain
truncate reads limit =
    if ltb (page_limit limit) (length reads)
    then drain (length reads - page_limit limit) reads
    else reads

unfoldable pub reject_conflicting_field : ReadQuery → String → Option ApiFailure
unfolding normalize_field
reject_conflicting_field query field = elim query.field [
  | none ↦ none
  | some raw ↦
      let asked = normalize_field raw in
      if asked == field
      then none
      else some (
          bad_request (
            "field is taken from the path ('" <> field <> "'); remove the conflicting '?field="
            <> asked <> "'"))
]
