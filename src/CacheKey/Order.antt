-- ===== src/CacheKey/Order.antt =====
-- The order in which the arguments are given does not change the key.
use mcp_conduit.Base.{
  ◌≡◌, ◌≢◌, refl, sym, ap, ◌∙◌, Bool, true, false, not, ◌&&◌, ◌||◌, Option, none, some, arith, List,
  [], ◌∷◌, ◌++◌, if◌then◌else◌, is, Bool-cases, inl, inr,
}
use mcp_conduit.Base.Json.{
  Json, obj, str, Fields, end, field, entries, of_entries, assign, insert_new, has_key, goes_before,
}
use mcp_conduit.Base.Text.{Text, text_dec, codes}
use mcp_conduit.CacheKey.{
  CacheKeyOptions, components, optional, is_ignored, filter_loop, filter_args, generate_cache_key,
}
use mcp_conduit.DeepSort.{deep_sort, deep_sort_entries, insert_by_key, sort_by_key, assign_all}
use mcp_conduit.DeepSort.Reordering.{
  ReorderedFields, no_fields, same_key, exchanged, then_again, insert_comm, deep_sort-Reordered,
}

-- The entries with their values sorted.
abbrev sorted_values : {N : Type 0} → List (Text × Json N) → List (Text × Json N)
sorted_values [] = []
sorted_values ((k, v) ∷ es) = (k, deep_sort v) ∷ sorted_values es

-- What the loop keeps.
is_kept : List Text → Text → Bool
is_kept ignore k = not (is_ignored ignore k) && not (is (text_dec k (codes "__proto__")))

is_kept_lem :
    (ignore : List Text) (k : Text)
    → is_kept ignore k ≡ (not (is_ignored ignore k) && not (is (text_dec k (codes "__proto__"))))
unfolding is_kept
is_kept_lem ignore k = refl

module _ {N : Type 0} where
  deep_sort_entries-of_entries :
      (es : List (Text × Json N)) → deep_sort_entries (of_entries es) ≡ sorted_values es
  unfolding deep_sort
  deep_sort_entries-of_entries [] = refl
  deep_sort_entries-of_entries ((k, v) ∷ es) =
      ap (λ l. (k, deep_sort v) ∷ l) (deep_sort_entries-of_entries es)

  sort-insert_new :
      (k : Text) (v : Json N) (es : List (Text × Json N))
      → has_key k es ≡ false
      → sort_by_key (sorted_values (insert_new k v es))
        ≡ insert_by_key k (deep_sort v) (sort_by_key (sorted_values es))
  unfolding insert_new sort_by_key has_key
  sort-insert_new k v [] fresh = refl
  sort-insert_new k v ((j, w) ∷ es) fresh = elim (Bool-cases (goes_before k j)) [
    | inl first ↦ rw first refl
    | inr later ↦
        rw (later, sort-insert_new k v es (ground arith))
          (insert_comm j k (deep_sort w) (deep_sort v) (sort_by_key (sorted_values es))
            (ground arith))
  ]

  has_key-insert_new :
      (j k : Text) (v : Json N) (es : List (Text × Json N))
      → has_key j (insert_new k v es) ≡ (is (text_dec j k) || has_key j es)
  unfolding insert_new has_key
  has_key-insert_new j k v [] = ground arith
  has_key-insert_new j k v ((i, w) ∷ es) = ground (arith, has_key-insert_new j k v es)

  -- The keys of an object are different, and none of them stands in `es`.
  abbrev pub HasNewKeys : List (Text × Json N) → List (Text × Json N) → Type 0
  HasNewKeys [] es = Unit
  HasNewKeys ((k, v) ∷ new) es = (has_key k es ≡ false) × HasNewKeys new es

  abbrev pub HasDistinctKeys : List (Text × Json N) → Type 0
  HasDistinctKeys [] = Unit
  HasDistinctKeys ((k, v) ∷ es) = (has_key k es ≡ false) × HasDistinctKeys es

  -- Sorting what the loop keeps, one entry after the other.
  insert_kept : List Text → List (Text × Json N) → List (Text × Json N) → List (Text × Json N)
  insert_kept ignore [] sorted = sorted
  insert_kept ignore ((k, v) ∷ es) sorted =
      insert_kept ignore es (if is_kept ignore k then insert_by_key k v sorted else sorted)

  HasNewKeys-insert_new :
      (k : Text) (v : Json N) (new es : List (Text × Json N))
      → has_key k new ≡ false
      → HasNewKeys new es
      → HasNewKeys new (insert_new k v es)
  unfolding has_key
  HasNewKeys-insert_new k v [] es d h = tt
  HasNewKeys-insert_new k v ((j, w) ∷ new) es d (h, hs) = (
    ground (arith, has_key-insert_new j k v es),
    HasNewKeys-insert_new k v new es (ground arith) hs,
  )

  assign-new :
      (k : Text) (v : Json N) (es : List (Text × Json N))
      → has_key k es ≡ false
      → is (text_dec k (codes "__proto__")) ≡ false
      → assign k v es ≡ insert_new k v es
  unfolding assign
  assign-new k v es h p = rw (p, h) refl

  assign-proto :
      (k : Text) (v : Json N) (es : List (Text × Json N))
      → is (text_dec k (codes "__proto__")) ≡ true
      → assign k v es ≡ es
  unfolding assign
  assign-proto k v es p = rw p refl

  insert_kept-skip :
      (ignore : List Text) (k : Text) (v : Json N) (es sorted : List (Text × Json N))
      → is_kept ignore k ≡ false
      → insert_kept ignore ((k, v) ∷ es) sorted ≡ insert_kept ignore es sorted
  unfolding insert_kept
  insert_kept-skip ignore k v es sorted h = rw h refl

  insert_kept-keep :
      (ignore : List Text) (k : Text) (v : Json N) (es sorted : List (Text × Json N))
      → is_kept ignore k ≡ true
      → insert_kept ignore ((k, v) ∷ es) sorted ≡ insert_kept ignore es (insert_by_key k v sorted)
  unfolding insert_kept
  insert_kept-keep ignore k v es sorted h = rw h refl

  sort-filter_loop :
      (ignore : List Text) (es filtered : List (Text × Json N))
      → HasDistinctKeys es
      → HasNewKeys es filtered
      → sort_by_key (sorted_values (filter_loop ignore es filtered))
        ≡ insert_kept ignore (sorted_values es) (sort_by_key (sorted_values filtered))
  unfolding filter_loop insert_kept sort_by_key
  sort-filter_loop ignore [] filtered d h = refl
  sort-filter_loop ignore ((k, v) ∷ es) filtered (d, ds) (h, hs) =
      elim (Bool-cases (is_ignored ignore k)) [
        | inl out ↦
            rw
              (
                out,
                insert_kept-skip ignore k (deep_sort v) (sorted_values es)
                    (sort_by_key (sorted_values filtered)) (ground (arith, is_kept_lem ignore k)),
              )
              (sort-filter_loop ignore es filtered ds hs)
        | inr stays ↦ elim (Bool-cases (is (text_dec k (codes "__proto__")))) [
          | inl proto ↦
              rw
                (
                  stays,
                  assign-proto k v filtered proto,
                  insert_kept-skip ignore k (deep_sort v) (sorted_values es)
                      (sort_by_key (sorted_values filtered)) (ground (arith, is_kept_lem ignore k)),
                )
                (sort-filter_loop ignore es filtered ds hs)
          | inr plain ↦
              rw
                (
                  stays,
                  assign-new k v filtered h plain,
                  insert_kept-keep ignore k (deep_sort v) (sorted_values es)
                      (sort_by_key (sorted_values filtered)) (ground (arith, is_kept_lem ignore k)),
                  ← sort-insert_new k v filtered h,
                )
                (sort-filter_loop ignore es (insert_new k v filtered) ds
                  (HasNewKeys-insert_new k v es filtered d hs))
        ]
      ]

  insert_if_comm :
      (a b : Bool) (j k : Text) (v w : Json N) (sorted : List (Text × Json N))
      → j ≢ k
      → (if a
          then insert_by_key j v (if b then insert_by_key k w sorted else sorted)
          else (if b then insert_by_key k w sorted else sorted))
        ≡ (if b
            then insert_by_key k w (if a then insert_by_key j v sorted else sorted)
            else (if a then insert_by_key j v sorted else sorted))
  insert_if_comm true true j k v w sorted h = insert_comm j k v w sorted h
  insert_if_comm true false j k v w sorted h = refl
  insert_if_comm false true j k v w sorted h = refl
  insert_if_comm false false j k v w sorted h = refl

  insert_kept-Reordered :
      (ignore : List Text) {fs gs : Fields N} (sorted : List (Text × Json N))
      → ReorderedFields fs gs
      → insert_kept ignore (deep_sort_entries fs) sorted
        ≡ insert_kept ignore (deep_sort_entries gs) sorted
  unfolding insert_kept deep_sort
  insert_kept-Reordered ignore sorted no_fields = refl
  insert_kept-Reordered ignore sorted (same_key {k} {v} {w} r rs) = rw (deep_sort-Reordered r) (
      insert_kept-Reordered ignore
        (if is_kept ignore k then insert_by_key k (deep_sort w) sorted else sorted) rs)
  insert_kept-Reordered ignore sorted (exchanged {j} {k} {v} {w} {fs} h) =
      ap (insert_kept ignore (deep_sort_entries fs)) (
        sym (
          insert_if_comm (is_kept ignore j) (is_kept ignore k) j k (deep_sort v) (deep_sort w)
            sorted h))
  insert_kept-Reordered ignore sorted (then_again r s) =
      insert_kept-Reordered ignore sorted r ∙ insert_kept-Reordered ignore sorted s

  entries-values : (fs : Fields N) → sorted_values (entries fs) ≡ deep_sort_entries fs
  unfolding deep_sort
  entries-values end = refl
  entries-values (field k v fs) = ap (λ l. (k, deep_sort v) ∷ l) (entries-values fs)

  no_keys : (es : List (Text × Json N)) → HasNewKeys es []
  unfolding has_key
  no_keys [] = tt
  no_keys ((k, v) ∷ es) = (refl, no_keys es)

  filter_args-sorted :
      (ignore : List Text) (fs : Fields N)
      → HasDistinctKeys (entries fs)
      → sort_by_key (deep_sort_entries (filter_args fs ignore))
        ≡ insert_kept ignore (deep_sort_entries fs) []
  unfolding filter_args sort_by_key
  filter_args-sorted ignore fs d =
      ap sort_by_key (deep_sort_entries-of_entries (filter_loop ignore (entries fs) []))
      ∙ sort-filter_loop ignore (entries fs) [] d (no_keys (entries fs))
      ∙ ap (λ es. insert_kept ignore es []) (entries-values fs)

  filter_args-Reordered :
      (ignore : List Text) {fs gs : Fields N}
      → HasDistinctKeys (entries fs)
      → HasDistinctKeys (entries gs)
      → ReorderedFields fs gs
      → deep_sort (obj (filter_args fs ignore)) ≡ deep_sort (obj (filter_args gs ignore))
  unfolding deep_sort
  filter_args-Reordered ignore {fs} {gs} d d' r =
      ap (λ es. obj (of_entries (assign_all es [])))
        (filter_args-sorted ignore fs d
          ∙ insert_kept-Reordered ignore [] r
          ∙ sym (filter_args-sorted ignore gs d'))

  -- The object of the key, from arguments that are sorted.
  assemble : Text → Text → Json N → Option Text → Option Text → Json N
  assemble server tool args tenant group = obj (
      of_entries (
        assign_all
          (sort_by_key (
            (codes "server_id", str server)
            ∷ (codes "tool_name", str tool)
            ∷ (codes "args", args)
            ∷ (optional (codes "tenant_id") tenant ++ optional (codes "group_id") group)))
          []))

  components-assemble :
      (server tool : Text) (a : Fields N) (tenant group : Option Text)
      → deep_sort (components server tool a tenant group)
        ≡ assemble server tool (deep_sort (obj a)) tenant group
  unfolding deep_sort assemble
  components-assemble server tool a none none = refl
  components-assemble server tool a none (some g) = refl
  components-assemble server tool a (some t) none = refl
  components-assemble server tool a (some t) (some g) = refl

  -- The rest of the key sees the arguments only after they are sorted.
  components-args :
      (server tool : Text) (a b : Fields N) (tenant group : Option Text)
      → deep_sort (obj a) ≡ deep_sort (obj b)
      → deep_sort (components server tool a tenant group)
        ≡ deep_sort (components server tool b tenant group)
  components-args server tool a b tenant group e =
      components-assemble server tool a tenant group
      ∙ ap (λ v. assemble server tool v tenant group) e
      ∙ sym (components-assemble server tool b tenant group)

-- The order of the fields of the arguments, at any depth, does not change the cache key.
pub generate_cache_key-Reordered :
    {N T K : Type 0} (stringify : Json N → T) (hash : T → K) (o : CacheKeyOptions N)
    (args : Fields N)
    → HasDistinctKeys (entries o.args)
    → HasDistinctKeys (entries args)
    → ReorderedFields o.args args
    → generate_cache_key stringify hash o
      ≡ generate_cache_key stringify hash (record o { args = args })
unfolding generate_cache_key
generate_cache_key-Reordered stringify hash o args d d' r =
    ap (λ v. hash (stringify v))
      (components-args o.server_id o.tool_name (filter_args o.args o.ignore_args)
        (filter_args args o.ignore_args) o.tenant_id o.group_id
        (filter_args-Reordered o.ignore_args d d' r))
