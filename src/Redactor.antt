-- ===== src/Redactor.antt =====
-- The masking of sensitive fields of src/observability/redactor.ts. `toLowerCase` is a parameter.
pub mod Masking
mod Tests
use mcp_conduit.Base.{
  ℕ, Bool, true, false, not, ◌&&◌, ◌||◌, List, [], ◌∷◌, ◌++◌, any, map, if◌then◌else◌, is, leb, ltb,
  ◌==◌, length,
}
use mcp_conduit.Base.Json.{
  Json, null, bool, num, str, arr, obj, Items, nil, cons, Fields, end, field, of_entries, assign,
}
use mcp_conduit.Base.Text.{Text, text_dec, codes}

abbrev pub redacted_value : Text
redacted_value = codes "[REDACTED]"

-- `name.split(/[_\-]/)`; the current part is collected in `part`.
split_parts : Text → Text → List Text
split_parts part [] = part ∷ []
split_parts part (c ∷ s) =
    let ended = split_parts [] s in
    let longer = split_parts (part ++ (c ∷ [])) s in
    if c == b'_' || c == b'-' then part ∷ ended else longer

is_lower : ℕ → Bool
is_lower c = leb b'a' c && leb c b'z'

is_upper : ℕ → Bool
is_upper c = leb b'A' c && leb c b'Z'

-- `part.split(/(?<=[a-z])(?=[A-Z])/)`; `after_lower` says whether the last character was a lower-case one.
split_camel : Text → Bool → Text → List Text
unfolding is_lower is_upper
split_camel word after_lower [] = word ∷ []
split_camel word after_lower (c ∷ s) =
    let ended = split_camel (c ∷ []) (is_lower c) s in
    let longer = split_camel (word ++ (c ∷ [])) (is_lower c) s in
    if after_lower && is_upper c then word ∷ ended else longer

split_all : List Text → List Text
unfolding split_camel
split_all [] = []
split_all (part ∷ parts) = split_camel [] false part ++ split_all parts

non_empty : List Text → List Text
non_empty [] = []
non_empty ([] ∷ words) = non_empty words
non_empty ((c ∷ s) ∷ words) = (c ∷ s) ∷ non_empty words

module _ (lower_case : Text → Text) where
  unfoldable pub split_into_segments : Text → List Text
  unfolding split_parts split_all non_empty
  split_into_segments name = non_empty (map lower_case (split_all (split_parts [] name)))

-- The segments of the sensitive name stand at the front.
begins_with : List Text → List Text → Bool
begins_with [] fields = true
begins_with (s ∷ sensitive) [] = false
begins_with (s ∷ sensitive) (f ∷ fields) = is (text_dec f s) && begins_with sensitive fields

-- The first loop: the segments stand in a row somewhere.
stands_in : List Text → List Text → Bool
unfolding begins_with
stands_in sensitive [] = begins_with sensitive []
stands_in sensitive (f ∷ fields) = begins_with sensitive (f ∷ fields) || stands_in sensitive fields

join : List Text → Text
join [] = []
join (s ∷ ss) = s ++ join ss

-- The inner loop of the second pass.
grows_to : Text → Text → List Text → Bool
grows_to joined concat [] = false
grows_to joined concat (f ∷ fields) =
    let rest = grows_to joined (concat ++ f) fields in
    if is (text_dec (concat ++ f) joined)
    then true
    else (if ltb (length joined) (length (concat ++ f)) then false else rest)

joins_to : Text → List Text → Bool
unfolding grows_to
joins_to joined [] = false
joins_to joined (f ∷ fields) = grows_to joined [] (f ∷ fields) || joins_to joined fields

-- One sensitive name against the segments of a field's name.
matches_segments : List Text → List Text → Bool
unfolding stands_in joins_to join
matches_segments [] fields = false
matches_segments (s ∷ ss) fields =
    if ltb (length fields) (length (s ∷ ss))
    then false
    else stands_in (s ∷ ss) fields || joins_to (join (s ∷ ss)) fields

module _ (lower_case : Text → Text) (sensitive_fields : List Text) where
  unfoldable pub is_sensitive_field : Text → Bool
  unfolding matches_segments
  is_sensitive_field name =
      any
        (λ sensitive.
          matches_segments (split_into_segments lower_case sensitive)
            (split_into_segments lower_case name))
        sensitive_fields

unfoldable mutual
  pub redact : {N : Type 0} → (Text → Text) → List Text → Json N → Json N
  redact lower_case sensitive null = null
  redact lower_case sensitive (bool b) = bool b
  redact lower_case sensitive (num n) = num n
  redact lower_case sensitive (str s) = str s
  redact lower_case sensitive (arr vs) = arr (redact_items lower_case sensitive vs)
  redact lower_case sensitive (obj fs) = obj (of_entries (redact_fields lower_case sensitive fs []))

  pub redact_items : {N : Type 0} → (Text → Text) → List Text → Items N → Items N
  redact_items lower_case sensitive nil = nil
  redact_items lower_case sensitive (cons v vs) =
      cons (redact lower_case sensitive v) (redact_items lower_case sensitive vs)

  -- The loop over the entries.
  pub redact_fields :
      {N : Type 0}
      → (Text → Text)
      → List Text
      → Fields N
      → List (Text × Json N)
      → List (Text × Json N)
  redact_fields lower_case sensitive end redacted = redacted
  redact_fields lower_case sensitive (field k v fs) redacted =
      redact_fields lower_case sensitive fs (
        assign k
          (if is_sensitive_field lower_case sensitive k
            then str redacted_value
            else redact lower_case sensitive v)
          redacted)
