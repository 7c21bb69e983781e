-- ===== src/DeepSort/Reordering.antt =====
-- The result does not depend on the order of the fields, at any depth.
use mcp_conduit.Base.{◌≡◌, ◌≢◌, refl, sym, ap, ◌∙◌, List, [], ◌∷◌, arith}
use mcp_conduit.Base.Json.{Json, arr, obj, Items, nil, cons, Fields, end, field, of_entries}
use mcp_conduit.Base.Json.Order.{text_ltb_asym, text_ltb_trans, text_ltb_total}
use mcp_conduit.Base.Text.{Text}
use mcp_conduit.DeepSort.{
  insert_by_key, sort_by_key, assign_all, deep_sort, deep_sort_items, deep_sort_entries,
}

-- Two values that differ in the order of the fields of their objects only.
mutual
  pub data Reordered {N : Type 0} : Json N → Json N → Type 0 where
    same : {v : Json N} → Reordered v v
    swapped : {v w : Json N} → Reordered v w → Reordered w v
    chained : {u v w : Json N} → Reordered u v → Reordered v w → Reordered u w
    in_array : {vs ws : Items N} → ReorderedItems vs ws → Reordered (arr vs) (arr ws)
    in_object : {fs gs : Fields N} → ReorderedFields fs gs → Reordered (obj fs) (obj gs)

  pub data ReorderedItems {N : Type 0} : Items N → Items N → Type 0 where
    no_items : ReorderedItems nil nil
    item :
        {v w : Json N} {vs ws : Items N}
        → Reordered v w
        → ReorderedItems vs ws
        → ReorderedItems (cons v vs) (cons w ws)

  pub data ReorderedFields {N : Type 0} : Fields N → Fields N → Type 0 where
    no_fields : ReorderedFields end end
    same_key :
        {k : Text} {v w : Json N} {fs gs : Fields N}
        → Reordered v w
        → ReorderedFields fs gs
        → ReorderedFields (field k v fs) (field k w gs)
    exchanged :
        {j k : Text} {v w : Json N} {fs : Fields N}
        → j ≢ k
        → ReorderedFields (field j v (field k w fs)) (field k w (field j v fs))
    then_again :
        {fs gs hs : Fields N}
        → ReorderedFields fs gs
        → ReorderedFields gs hs
        → ReorderedFields fs hs

module _ {N : Type 0} where
  pub insert_comm :
      (j k : Text) (v w : Json N) (es : List (Text × Json N))
      → j ≢ k
      → insert_by_key j v (insert_by_key k w es) ≡ insert_by_key k w (insert_by_key j v es)
  unfolding insert_by_key
  insert_comm j k v w [] h = ground (arith, text_ltb_asym j k, text_ltb_total j k)
  insert_comm j k v w ((i, u) ∷ es) h = ground (
    arith,
    insert_comm j k v w es h,
    text_ltb_asym j k,
    text_ltb_total j k,
    text_ltb_trans j k i,
    text_ltb_trans k j i,
  )

mutual
  unfolding deep_sort sort_by_key

  deep_sort-eq : {N : Type 0} {v w : Json N} → Reordered v w → deep_sort v ≡ deep_sort w
  deep_sort-eq same = refl
  deep_sort-eq (swapped r) = sym (deep_sort-eq r)
  deep_sort-eq (chained r s) = deep_sort-eq r ∙ deep_sort-eq s
  deep_sort-eq (in_array r) = ap arr (items-eq r)
  deep_sort-eq (in_object r) = ap (λ es. obj (of_entries (assign_all es []))) (fields-eq r)

  items-eq :
      {N : Type 0} {vs ws : Items N}
      → ReorderedItems vs ws
      → deep_sort_items vs ≡ deep_sort_items ws
  items-eq no_items = refl
  items-eq (item r rs) = cc (deep_sort-eq r, items-eq rs)

  fields-eq :
      {N : Type 0} {fs gs : Fields N}
      → ReorderedFields fs gs
      → sort_by_key (deep_sort_entries fs) ≡ sort_by_key (deep_sort_entries gs)
  fields-eq no_fields = refl
  fields-eq (same_key r rs) = cc (deep_sort-eq r, fields-eq rs)
  fields-eq (exchanged {j} {k} {v} {w} {fs} h) =
      insert_comm j k (deep_sort v) (deep_sort w) (sort_by_key (deep_sort_entries fs)) h
  fields-eq (then_again r s) = fields-eq r ∙ fields-eq s

-- Values that differ in the order of their fields only are sorted to the same value.
pub deep_sort-Reordered : {N : Type 0} {v w : Json N} → Reordered v w → deep_sort v ≡ deep_sort w
deep_sort-Reordered r = deep_sort-eq r
