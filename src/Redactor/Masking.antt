-- ===== src/Redactor/Masking.antt =====
-- What is left after masking.
use mcp_conduit.Base.{
  ◌≡◌, refl, subst, ite, Bool, true, List, [], ◌∷◌, arith, Bool-cases, inl, inr, if◌then◌else◌, is,
}
use mcp_conduit.Base.Json.{
  Json, null, bool, num, str, arr, obj, Items, nil, cons, Fields, end, field, of_entries, assign,
  replace, insert_new, has_key, goes_before,
}
use mcp_conduit.Base.Text.{Text, text_dec, codes}
use mcp_conduit.Redactor.{redacted_value, is_sensitive_field, redact, redact_items, redact_fields}

-- Every field with a sensitive name, at any depth, holds the mask.
mutual
  pub data IsMasked {N : Type 0} (lower_case : Text → Text) (sensitive : List Text)
      : Json N → Type 0 where
    in_null : IsMasked lower_case sensitive null
    in_bool : {b : Bool} → IsMasked lower_case sensitive (bool b)
    in_num : {n : N} → IsMasked lower_case sensitive (num n)
    in_str : {s : Text} → IsMasked lower_case sensitive (str s)
    in_arr :
        {vs : Items N} → AreMasked lower_case sensitive vs → IsMasked lower_case sensitive (arr vs)
    in_obj :
        {fs : Fields N} → HasMasks lower_case sensitive fs → IsMasked lower_case sensitive (obj fs)

  pub data AreMasked {N : Type 0} (lower_case : Text → Text) (sensitive : List Text)
      : Items N → Type 0 where
    no_items : AreMasked lower_case sensitive nil
    item :
        {v : Json N} {vs : Items N}
        → IsMasked lower_case sensitive v
        → AreMasked lower_case sensitive vs
        → AreMasked lower_case sensitive (cons v vs)

  pub data HasMasks {N : Type 0} (lower_case : Text → Text) (sensitive : List Text)
      : Fields N → Type 0 where
    no_fields : HasMasks lower_case sensitive end
    one_field :
        {k : Text} {v : Json N} {fs : Fields N}
        → (is_sensitive_field lower_case sensitive k ≡ true → v ≡ str redacted_value)
        → IsMasked lower_case sensitive v
        → HasMasks lower_case sensitive fs
        → HasMasks lower_case sensitive (field k v fs)

module _ {N : Type 0} (lower_case : Text → Text) (sensitive : List Text) where
  -- What a field holds.
  abbrev Holds : Text → Json N → Type 0
  Holds k v =
      (is_sensitive_field lower_case sensitive k ≡ true → v ≡ str redacted_value)
      × IsMasked lower_case sensitive v

  abbrev AllHold : List (Text × Json N) → Type 0
  AllHold [] = Unit
  AllHold ((k, v) ∷ es) = Holds k v × AllHold es

  AllHold-masks :
      (es : List (Text × Json N)) → AllHold es → HasMasks lower_case sensitive (of_entries es)
  AllHold-masks [] h = no_fields
  AllHold-masks ((k, v) ∷ es) ((mask, inside), h) = one_field mask inside (AllHold-masks es h)

  AllHold-insert_new :
      (k : Text) (v : Json N) (es : List (Text × Json N))
      → Holds k v
      → AllHold es
      → AllHold (insert_new k v es)
  unfolding insert_new
  AllHold-insert_new k v [] p h = (p, tt)
  AllHold-insert_new k v ((j, w) ∷ es) p (q, h) = elim (Bool-cases (goes_before k j)) [
    | inl first ↦ rw first (p, (q, h))
    | inr later ↦ rw later (q, AllHold-insert_new k v es p h)
  ]

  ite-AllHold :
      {P : Type 0} (d : Dec P) (a b : List (Text × Json N))
      → (P → AllHold a)
      → AllHold b
      → AllHold (ite d a b)
  ite-AllHold (yes e) a b f h = f e
  ite-AllHold (no n) a b f h = h

  AllHold-replace :
      (k : Text) (v : Json N) (es : List (Text × Json N))
      → Holds k v
      → AllHold es
      → AllHold (replace k v es)
  unfolding replace
  AllHold-replace k v [] p h = tt
  AllHold-replace k v ((j, w) ∷ es) p (q, h) =
      ite-AllHold (text_dec k j) ((j, v) ∷ es) ((j, w) ∷ replace k v es)
        (λ e. (subst (λ (i : Text). Holds i v) e p, h)) (q, AllHold-replace k v es p h)

  AllHold-assign :
      (k : Text) (v : Json N) (es : List (Text × Json N))
      → Holds k v
      → AllHold es
      → AllHold (assign k v es)
  unfolding assign
  AllHold-assign k v es p h = elim (Bool-cases (is (text_dec k (codes "__proto__")))) [
    | inl proto ↦ rw proto h
    | inr plain ↦ elim (Bool-cases (has_key k es)) [
      | inl there ↦ rw (plain, there) (AllHold-replace k v es p h)
      | inr missing ↦ rw (plain, missing) (AllHold-insert_new k v es p h)
    ]
  ]

  -- The value that the loop assigns.
  assigned-Holds :
      (k : Text) (v : Json N)
      → IsMasked lower_case sensitive v
      → Holds k (if is_sensitive_field lower_case sensitive k then str redacted_value else v)
  assigned-Holds k v inside = elim (Bool-cases (is_sensitive_field lower_case sensitive k)) [
    | inl secret ↦ rw secret (λ e. refl, in_str)
    | inr open_field ↦ rw open_field (λ e. ground arith, inside)
  ]

mutual
  unfolding redact

  value-IsMasked :
      {N : Type 0} (lower_case : Text → Text) (sensitive : List Text) (v : Json N)
      → IsMasked lower_case sensitive (redact lower_case sensitive v)
  value-IsMasked lower_case sensitive null = in_null
  value-IsMasked lower_case sensitive (bool b) = in_bool
  value-IsMasked lower_case sensitive (num n) = in_num
  value-IsMasked lower_case sensitive (str s) = in_str
  value-IsMasked lower_case sensitive (arr vs) = in_arr (items-AreMasked lower_case sensitive vs)
  value-IsMasked lower_case sensitive (obj fs) = in_obj (
      AllHold-masks lower_case sensitive (redact_fields lower_case sensitive fs [])
        (fields-AllHold lower_case sensitive fs [] tt))

  items-AreMasked :
      {N : Type 0} (lower_case : Text → Text) (sensitive : List Text) (vs : Items N)
      → AreMasked lower_case sensitive (redact_items lower_case sensitive vs)
  items-AreMasked lower_case sensitive nil = no_items
  items-AreMasked lower_case sensitive (cons v vs) =
      item (value-IsMasked lower_case sensitive v) (items-AreMasked lower_case sensitive vs)

  fields-AllHold :
      {N : Type 0} (lower_case : Text → Text) (sensitive : List Text) (fs : Fields N)
      (es : List (Text × Json N))
      → AllHold lower_case sensitive es
      → AllHold lower_case sensitive (redact_fields lower_case sensitive fs es)
  fields-AllHold lower_case sensitive end es h = h
  fields-AllHold lower_case sensitive (field k v fs) es h =
      fields-AllHold lower_case sensitive fs
        (assign k
          (if is_sensitive_field lower_case sensitive k
            then str redacted_value
            else redact lower_case sensitive v)
          es)
        (AllHold-assign lower_case sensitive k _ es
          (assigned-Holds lower_case sensitive k (redact lower_case sensitive v)
            (value-IsMasked lower_case sensitive v))
          h)

-- After masking, every field with a sensitive name holds the mask, at any depth.
pub redact-IsMasked :
    {N : Type 0} (lower_case : Text → Text) (sensitive : List Text) (v : Json N)
    → IsMasked lower_case sensitive (redact lower_case sensitive v)
redact-IsMasked lower_case sensitive v = value-IsMasked lower_case sensitive v
