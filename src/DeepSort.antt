-- ===== src/DeepSort.antt =====
-- The sorting of objects of src/utils/deep-sort.ts. `Object.keys(value).sort()` and the reads
-- `value[key]` in the loop are a sort of the entries by their keys. The value `undefined` does not
-- occur: the values come from JSON.
pub mod Reordering
mod Tests
use mcp_conduit.Base.{ℕ, Bool, List, [], ◌∷◌, if◌then◌else◌}
use mcp_conduit.Base.Json.{
  Json, null, bool, num, str, arr, obj, Items, nil, cons, Fields, end, field, of_entries, text_ltb,
  assign,
}
use mcp_conduit.Base.Text.{Text}

module _ {N : Type 0} where
  -- The place of an entry in a list that is sorted by the keys; equal keys do not occur in an object.
  unfoldable pub insert_by_key : Text → Json N → List (Text × Json N) → List (Text × Json N)
  insert_by_key k v [] = (k, v) ∷ []
  insert_by_key k v ((j, w) ∷ es) =
      let rest = insert_by_key k v es in
      if text_ltb k j then (k, v) ∷ (j, w) ∷ es else (j, w) ∷ rest

  unfoldable pub sort_by_key : List (Text × Json N) → List (Text × Json N)
  sort_by_key [] = []
  sort_by_key ((k, v) ∷ es) = insert_by_key k v (sort_by_key es)

  -- The loop `sorted[key] = …`.
  unfoldable pub assign_all : List (Text × Json N) → List (Text × Json N) → List (Text × Json N)
  assign_all [] sorted = sorted
  assign_all ((k, v) ∷ es) sorted = assign_all es (assign k v sorted)

unfoldable mutual
  unfolding sort_by_key insert_by_key assign_all

  pub deep_sort : {N : Type 0} → Json N → Json N
  deep_sort null = null
  deep_sort (bool b) = bool b
  deep_sort (num n) = num n
  deep_sort (str s) = str s
  deep_sort (arr vs) = arr (deep_sort_items vs)
  deep_sort (obj fs) = obj (of_entries (assign_all (sort_by_key (deep_sort_entries fs)) []))

  pub deep_sort_items : {N : Type 0} → Items N → Items N
  deep_sort_items nil = nil
  deep_sort_items (cons v vs) = cons (deep_sort v) (deep_sort_items vs)

  -- The entries with their values sorted.
  pub deep_sort_entries : {N : Type 0} → Fields N → List (Text × Json N)
  deep_sort_entries end = []
  deep_sort_entries (field k v fs) = (k, deep_sort v) ∷ deep_sort_entries fs
