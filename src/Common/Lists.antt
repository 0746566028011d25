-- ===== src/Common/Lists.antt =====
-- Lists of texts and their measure in native numbers.
use Prim.Native.Nat.{ℕ, suc}
use Prim.Native.String.{String}
use mathlib.Core.Path.{◌≡◌, refl}
use mathlib.Core.Bool.{Bool, true, false, not, ◌&&◌, ◌||◌}
use mathlib.Core.List.{List, [], ◌∷◌, ◌++◌}
use mathlib.Core.Option.{Option, none, some}
use native.Mathlib.Omega.{arith}
use text.Mathlib.Text.{◌==◌}
use text.Mathlib.TextEquality.{eq_iff}
use sismatic.Common.Tests.{if◌then◌else◌}

module _ {ℓ} {A : Type ℓ} where
  abbrev pub length : List A → ℕ
  length [] = 0
  length (x ∷ xs) = suc (length xs)

  -- `Iterator::filter`, by a Boolean test.
  unfoldable pub select : (A → Bool) → List A → List A
  select p [] = []
  select p (x ∷ xs) = let rest = select p xs in if p x then x ∷ rest else rest

  pub select-append :
      (p : A → Bool) (xs ys : List A) → select p (xs ++ ys) ≡ select p xs ++ select p ys
  unfolding select
  select-append p [] ys = refl
  select-append p (x ∷ xs) ys = ground (arith, select-append p xs ys)

  -- `Iterator::find`.
  unfoldable pub find_first : (A → Bool) → List A → Option A
  find_first p [] = none
  find_first p (x ∷ xs) = if p x then some x else find_first p xs

  -- `Iterator::all`.
  unfoldable pub all : (A → Bool) → List A → Bool
  all p [] = true
  all p (x ∷ xs) = p x && all p xs

  pub all-append : (p : A → Bool) (xs ys : List A) → all p (xs ++ ys) ≡ (all p xs && all p ys)
  unfolding all
  all-append p [] ys = refl
  all-append p (x ∷ xs) ys = ground (arith, all-append p xs ys)

-- `Iterator::filter_map`.
unfoldable pub collect {ℓ κ} : {A : Type ℓ} {B : Type κ} → (A → Option B) → List A → List B
collect f [] = []
collect f (x ∷ xs) = let rest = collect f xs in elim (f x) [ none ↦ rest | some b ↦ b ∷ rest ]

-- Membership of a text in a list of texts.
unfoldable pub contains : String → List String → Bool
contains k [] = false
contains k (x ∷ xs) = (k == x) || contains k xs

-- No text stands twice in the list.
unfoldable pub distinct : List String → Bool
unfolding contains
distinct [] = true
distinct (x ∷ xs) = not (contains x xs) && distinct xs

-- `list == list` on texts.
unfoldable pub same_texts : List String → List String → Bool
same_texts [] [] = true
same_texts (x ∷ xs) (y ∷ ys) = (x == y) && same_texts xs ys
same_texts _ _ = false

pub same_texts_sound : (xs ys : List String) → same_texts xs ys ≡ true → xs ≡ ys
unfolding same_texts
same_texts_sound [] [] h = refl
same_texts_sound (x ∷ xs) (y ∷ ys) h = ground (arith, eq_iff x y, same_texts_sound xs ys)
same_texts_sound _ _ h = ground arith

pub contains-push :
    (k x : String) (xs : List String) → contains k (xs ++ x ∷ []) ≡ (contains k xs || (k == x))
unfolding contains
contains-push k x [] = ground arith
contains-push k x (y ∷ ys) = ground (arith, contains-push k x ys)

-- What a test keeps was there, and passes it.
pub contains-select :
    (p : String → Bool) (k : String) (xs : List String)
    → contains k (select p xs) ≡ (contains k xs && p k)
unfolding contains select
contains-select p k [] = refl
contains-select p k (x ∷ xs) = ground (arith, contains-select p k xs, eq_iff k x)

pub distinct-select :
    (p : String → Bool) (xs : List String) → distinct xs ≡ true → distinct (select p xs) ≡ true
unfolding distinct select
distinct-select p [] d = refl
distinct-select p (x ∷ xs) d = ground (arith, distinct-select p xs, contains-select p x xs)
