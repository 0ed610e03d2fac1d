-- ===== src/Settings.antt =====
-- The merge of internal/service/settings.go. A decoded JSON object is its list of fields; Go's maps
-- have one value for a key and no order, so a merge is judged by what it finds under each key.
pub mod Merge
pub mod Validation
pub mod Service
pub mod Valid
use be_better.Prelude.{String, ◌=ˢ◌, Option, none, some, if◌then◌else◌}
use be_better.Model.{
  Json, null, boolean, integer, fractional, text, array, object, Fields, end, field,
}

abbrev pub lookup : String → Fields → Option Json
lookup key end = none
lookup key (field k v rest) = let later = lookup key rest in if key =ˢ k then some v else later

-- `merged[key] = value`
abbrev pub set_field : String → Json → Fields → Fields
set_field key value end = field key value end
set_field key value (field k v rest) =
    let later = set_field key value rest in if key =ˢ k then field k value rest else field k v later

-- `delete(merged, key)`
abbrev pub remove_field : String → Fields → Fields
remove_field key end = end
remove_field key (field k v rest) =
    let later = remove_field key rest in if key =ˢ k then later else field k v later

abbrev pub as_object : Option Json → Option Fields
as_object (some (object fields)) = some fields
as_object _ = none

unfoldable mutual
  -- The loop of `mergeJSONObject` over the patch.
  pub merge_object : Fields → Fields → Fields
  merge_object merged end = merged
  merge_object merged (field key value rest) = merge_object (merge_key merged key value) rest

  pub merge_key : Fields → String → Json → Fields
  merge_key merged key null = remove_field key merged
  merge_key merged key (object patch) =
      set_field key
        (elim (as_object (lookup key merged)) [
          | none ↦ object patch
          | some current ↦ object (merge_object current patch)
        ])
        merged
  merge_key merged key value = set_field key value merged
