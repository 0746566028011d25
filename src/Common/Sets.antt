-- ===== src/Common/Sets.antt =====
-- `BTreeSet<String>`: the elements in the order of texts, none of them twice.
use Prim.Native.String.{String}
use mathlib.Core.Path.{◌≡◌, refl}
use mathlib.Core.Bool.{Bool, true, false, not, ◌&&◌, ◌||◌}
use mathlib.Core.List.{List, [], ◌∷◌, ◌++◌}
use native.Mathlib.Omega.{arith}
use text.Mathlib.Text.{◌==◌}
use text.Mathlib.TextEquality.{eq_iff}
use sismatic.Common.Tests.{str_lt, if◌then◌else◌}
use sismatic.Common.Lists.{all, all-append, contains, distinct}
use sismatic.Common.Order.{str_lt_trans, str_lt_asym, str_lt_total}

place : String → List String → List String
place k [] = k ∷ []
place k (x ∷ xs) = let rest = place k xs in if str_lt k x then k ∷ x ∷ xs else x ∷ rest

unfoldable pub set_insert : String → List String → List String
unfolding place
set_insert k xs = if contains k xs then xs else place k xs

unfoldable pub set_remove : String → List String → List String
set_remove k [] = []
set_remove k (x ∷ xs) = let rest = set_remove k xs in if k == x then rest else x ∷ rest

-- `iter.collect::<BTreeSet<_>>()`.
unfoldable pub set_of : List String → List String
set_of [] = []
set_of (x ∷ xs) = set_insert x (set_of xs)

contains-place :
    (j k : String) (xs : List String) → contains j (place k xs) ≡ ((j == k) || contains j xs)
unfolding contains place
contains-place j k [] = refl
contains-place j k (x ∷ xs) = ground (arith, contains-place j k xs)

distinct-place :
    (k : String) (xs : List String)
    → contains k xs ≡ false
    → distinct xs ≡ true
    → distinct (place k xs) ≡ true
unfolding distinct place contains
distinct-place k [] absent d = refl
distinct-place k (x ∷ xs) absent d =
    ground (arith, contains-place x k xs, distinct-place k xs, eq_iff k x, eq_iff x k)

pub contains-set_insert :
    (j k : String) (xs : List String) → contains j (set_insert k xs) ≡ ((j == k) || contains j xs)
unfolding set_insert
contains-set_insert j k xs = ground (arith, contains-place j k xs, eq_iff j k)

pub distinct-set_insert :
    (k : String) (xs : List String) → distinct xs ≡ true → distinct (set_insert k xs) ≡ true
unfolding set_insert
distinct-set_insert k xs d = ground (arith, distinct-place k xs)

pub distinct-set_of : (xs : List String) → distinct (set_of xs) ≡ true
unfolding set_of distinct
distinct-set_of [] = refl
distinct-set_of (x ∷ xs) = distinct-set_insert x (set_of xs) (distinct-set_of xs)

pub contains-set_of : (j : String) (xs : List String) → contains j (set_of xs) ≡ contains j xs
unfolding set_of contains
contains-set_of j [] = refl
contains-set_of j (x ∷ xs) =
    ground (arith, contains-set_insert j x (set_of xs), contains-set_of j xs)

pub contains-set_remove :
    (j k : String) (xs : List String)
    → contains j (set_remove k xs) ≡ (not (j == k) && contains j xs)
unfolding set_remove contains
contains-set_remove j k [] = ground arith
contains-set_remove j k (x ∷ xs) =
    ground (arith, contains-set_remove j k xs, eq_iff j k, eq_iff k x, eq_iff j x)

pub distinct-set_remove :
    (k : String) (xs : List String) → distinct xs ≡ true → distinct (set_remove k xs) ≡ true
unfolding set_remove distinct
distinct-set_remove k [] d = refl
distinct-set_remove k (x ∷ xs) d =
    ground (arith, distinct-set_remove k xs, contains-set_remove x k xs)

-- Each text is below all that follow it.
unfoldable pub ascending : List String → Bool
unfolding all
ascending [] = true
ascending (x ∷ xs) = all (str_lt x) xs && ascending xs

all-place :
    (y k : String) (xs : List String)
    → all (str_lt y) (place k xs) ≡ (str_lt y k && all (str_lt y) xs)
unfolding all place
all-place y k [] = ground arith
all-place y k (x ∷ xs) = ground (arith, all-place y k xs)

pub all_below :
    (k x : String) (xs : List String)
    → str_lt k x ≡ true
    → all (str_lt x) xs ≡ true
    → all (str_lt k) xs ≡ true
unfolding all
all_below k x [] below h = refl
all_below k x (y ∷ ys) below h = ground (arith, all_below k x ys below, str_lt_trans k x y)

ascending-place :
    (k : String) (xs : List String)
    → contains k xs ≡ false
    → ascending xs ≡ true
    → ascending (place k xs) ≡ true
unfolding place ascending contains all
ascending-place k [] absent h = refl
ascending-place k (x ∷ xs) absent h =
    ground (arith, all-place x k xs, ascending-place k xs, all_below k x xs, str_lt_total k x)

pub ascending-set_insert :
    (k : String) (xs : List String) → ascending xs ≡ true → ascending (set_insert k xs) ≡ true
unfolding set_insert
ascending-set_insert k xs h = ground (arith, ascending-place k xs)

absent_above :
    (k : String) (xs : List String) → all (λ x. str_lt x k) xs ≡ true → contains k xs ≡ false
unfolding all contains
absent_above k [] h = refl
absent_above k (x ∷ xs) h = ground (arith, absent_above k xs, str_lt_asym x k, eq_iff k x)

place_last :
    (k : String) (xs : List String) → all (λ x. str_lt x k) xs ≡ true → place k xs ≡ xs ++ k ∷ []
unfolding all place
place_last k [] h = refl
place_last k (x ∷ xs) h = ground (arith, place_last k xs, str_lt_asym x k)

-- An element above all the others goes to the end.
pub set_insert_last :
    (k : String) (xs : List String)
    → all (λ x. str_lt x k) xs ≡ true
    → set_insert k xs ≡ xs ++ k ∷ []
unfolding set_insert
set_insert_last k xs h = ground (arith, absent_above k xs h, place_last k xs h)

all_passing-place :
    (p : String → Bool) (k : String) (xs : List String) → all p (place k xs) ≡ (p k && all p xs)
unfolding all place
all_passing-place p k [] = ground arith
all_passing-place p k (x ∷ xs) = ground (arith, all_passing-place p k xs)

pub all-set_insert :
    (p : String → Bool) (k : String) (xs : List String)
    → p k ≡ true
    → all p xs ≡ true
    → all p (set_insert k xs) ≡ true
unfolding set_insert
all-set_insert p k xs pk h = ground (arith, all_passing-place p k xs)

-- What comes before an element of an ascending list is below it.
pub ascending_before :
    (xs : List String) (y : String) (ys : List String)
    → ascending (xs ++ y ∷ ys) ≡ true
    → all (λ x. str_lt x y) xs ≡ true
unfolding ascending all
ascending_before [] y ys h = refl
ascending_before (x ∷ xs) y ys h =
    ground (arith, all-append (str_lt x) xs (y ∷ ys), ascending_before xs y ys)

-- What is below every element is none of them.
pub absent_below :
    (k : String) (xs : List String) → all (str_lt k) xs ≡ true → contains k xs ≡ false
unfolding all contains
absent_below k [] h = refl
absent_below k (x ∷ xs) h = ground (arith, absent_below k xs, str_lt_asym k x, eq_iff k x)
