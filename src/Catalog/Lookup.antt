-- ===== src/Catalog/Lookup.antt =====
-- What the catalog finds under an id.
use sismatic.Common.{String, ◌≡◌, refl, ◌∙◌, List, [], ◌∷◌, eq_iff, eq_refl, arith, find_first}
use sismatic.Catalog.Listing.{
  Summary, insert_by_id, sort_by_id, find_by_id, MemoryCatalog, replace, device, group,
}

module _ {ℓ} {S : Type ℓ} (summary : Summary S) where
  find_by_id-insert_by_id :
      (id : String) (x : S) (xs : List S)
      → find_by_id summary id (insert_by_id summary x xs) ≡ find_by_id summary id (x ∷ xs)
  unfolding insert_by_id find_by_id find_first
  find_by_id-insert_by_id id x [] = refl
  find_by_id-insert_by_id id x (y ∷ ys) = ground (
    arith,
    find_by_id-insert_by_id id x ys,
    eq_iff (summary.id x) id,
    eq_iff (summary.id y) id,
    eq_refl id,
  )

  find_by_id-sort_by_id :
      (id : String) (xs : List S)
      → find_by_id summary id (sort_by_id summary xs) ≡ find_by_id summary id xs
  unfolding sort_by_id find_by_id find_first
  find_by_id-sort_by_id id [] = refl
  find_by_id-sort_by_id id (x ∷ xs) =
      find_by_id-insert_by_id id x (sort_by_id summary xs)
      ∙ ground (arith, find_by_id-sort_by_id id xs)

-- After a replacement a lookup finds the device, or the group, that is the first with its id in the
-- list given, and none where no one has it; the order of the listing does not matter, and nothing is
-- found of what the catalog held before.
pub device-replace {ℓ κ} :
    {D : Type ℓ} {G : Type κ} (d : Summary D) (g : Summary G) (devices : List D) (groups : List G)
    (catalog : MemoryCatalog D G) (id : String)
    → (device d g id (replace d g devices groups catalog) ≡ find_by_id d id devices)
      × (group d g id (replace d g devices groups catalog) ≡ find_by_id g id groups)
unfolding device group replace
device-replace d g devices groups catalog id =
    (find_by_id-sort_by_id d id devices, find_by_id-sort_by_id g id groups)
