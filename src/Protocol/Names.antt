-- ===== src/Protocol/Names.antt =====
-- crates/sismatic-core/src/protocol/payload_helpers.rs, `normalize`, and the search of
-- crates/sismatic-core/src/protocol/instructions/catalog.rs: `from_str` of an instruction catalog.
use Prim.Native.String.{char_at}
use sismatic.Common.{
  String, List, Option, contains, find_first, to_ascii_uppercase, replace_char, map_chars,
}

unfoldable pub normalize : String → String
unfolding to_ascii_uppercase replace_char map_chars
normalize s = replace_char (char_at "-" 0) (char_at "_" 0) (to_ascii_uppercase s)

-- The first arm of the match that has the text among its spellings.
unfoldable pub spelled {ℓ} : {A : Type ℓ} → (A → List String) → String → List A → Option A
unfolding normalize contains find_first
spelled accepted s arms =
    let wanted = normalize s in find_first (λ a. contains wanted (accepted a)) arms
