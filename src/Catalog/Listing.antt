-- ===== src/Catalog/Listing.antt =====
-- crates/sismatic-store-memory/src/catalog.rs: `MemoryCatalog`. Of a summary only its id is read, so
-- the two summaries' types are arguments. `sort_by` is stable.
use sismatic.Common.{String, Option, List, [], ◌∷◌, ◌==◌, str_lt, find_first, if◌then◌else◌}

-- What the catalog reads of a summary.
pub record Summary {ℓ} (S : Type ℓ) : Type ℓ where
  pub id : S → String

module _ {ℓ} {S : Type ℓ} (summary : Summary S) where
  unfoldable pub insert_by_id : S → List S → List S
  insert_by_id x [] = x ∷ []
  insert_by_id x (y ∷ ys) =
      let rest = insert_by_id x ys in
      if str_lt (summary.id y) (summary.id x) then y ∷ rest else x ∷ y ∷ ys

  unfoldable pub sort_by_id : List S → List S
  unfolding insert_by_id
  sort_by_id [] = []
  sort_by_id (x ∷ xs) = insert_by_id x (sort_by_id xs)

  unfoldable pub find_by_id : String → List S → Option S
  find_by_id id xs = find_first (λ x. summary.id x == id) xs

pub record MemoryCatalog {ℓ κ} (D : Type ℓ) (G : Type κ) : Type (ℓ ⊔ κ) where
  pub devices : List D
  pub groups : List G

module _ {ℓ κ} {D : Type ℓ} {G : Type κ} (d : Summary D) (g : Summary G) where
  unfoldable pub new_catalog : List D → List G → MemoryCatalog D G
  new_catalog devices groups = record {
    devices = sort_by_id d devices;
    groups = sort_by_id g groups;
  }

  unfoldable pub replace : List D → List G → MemoryCatalog D G → MemoryCatalog D G
  replace devices groups catalog = record catalog {
    devices = sort_by_id d devices;
    groups = sort_by_id g groups;
  }

  unfoldable pub device : String → MemoryCatalog D G → Option D
  device id catalog = find_by_id d id catalog.devices

  unfoldable pub group : String → MemoryCatalog D G → Option G
  group id catalog = find_by_id g id catalog.groups
