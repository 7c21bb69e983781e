-- ===== src/Base/Json/Objects.antt =====
-- Reading the properties of an object after one is assigned.
use mcp_conduit.Base.Json.{Json, entries, of_entries, own, assign, replace, insert_new, has_key}
use mcp_conduit.Base.Tests.{is, Bool-cases}
use mcp_conduit.Base.Text.{Text, text_dec, codes}
use mathlib.Core.Path.{◌≡◌, refl, ap}
use mathlib.Core.Logic.{◌≢◌, inl, inr}
use mathlib.Core.Bool.{true, false}
use mathlib.Core.Option.{some}
use mathlib.Core.List.{List, [], ◌∷◌}
use native.Mathlib.Omega.{arith}

module _ {N : Type 0} where
  pub entries-of_entries : (es : List (Text × Json N)) → entries (of_entries es) ≡ es
  entries-of_entries [] = refl
  entries-of_entries ((k, v) ∷ es) = ap (λ l. (k, v) ∷ l) (entries-of_entries es)

  own-insert_new :
      (k : Text) (v : Json N) (es : List (Text × Json N))
      → has_key k es ≡ false
      → own k (insert_new k v es) ≡ some v
  unfolding own insert_new has_key
  own-insert_new k v [] h = ground arith
  own-insert_new k v ((j, w) ∷ es) h = ground (arith, own-insert_new k v es)

  own-insert_new_other :
      (j k : Text) (v : Json N) (es : List (Text × Json N))
      → j ≢ k
      → own j (insert_new k v es) ≡ own j es
  unfolding own insert_new
  own-insert_new_other j k v [] h = ground arith
  own-insert_new_other j k v ((i, w) ∷ es) h = ground (arith, own-insert_new_other j k v es h)

  own-replace :
      (k : Text) (v : Json N) (es : List (Text × Json N))
      → has_key k es ≡ true
      → own k (replace k v es) ≡ some v
  unfolding own replace has_key
  own-replace k v [] h = ground arith
  own-replace k v ((j, w) ∷ es) h = ground (arith, own-replace k v es)

  own-replace_other :
      (j k : Text) (v : Json N) (es : List (Text × Json N))
      → j ≢ k
      → own j (replace k v es) ≡ own j es
  unfolding own replace
  own-replace_other j k v [] h = refl
  own-replace_other j k v ((i, w) ∷ es) h = ground (arith, own-replace_other j k v es h)

  pub own-assign :
      (k : Text) (v : Json N) (es : List (Text × Json N))
      → is (text_dec k (codes "__proto__")) ≡ false
      → own k (assign k v es) ≡ some v
  unfolding assign
  own-assign k v es p = elim (Bool-cases (has_key k es)) [
    | inl there ↦ rw (p, there) (own-replace k v es there)
    | inr missing ↦ rw (p, missing) (own-insert_new k v es missing)
  ]

  pub own-assign_other :
      (j k : Text) (v : Json N) (es : List (Text × Json N))
      → j ≢ k
      → own j (assign k v es) ≡ own j es
  unfolding assign
  own-assign_other j k v es h = elim (Bool-cases (is (text_dec k (codes "__proto__")))) [
    | inl proto ↦ rw proto refl
    | inr plain ↦ elim (Bool-cases (has_key k es)) [
      | inl there ↦ rw (plain, there) (own-replace_other j k v es h)
      | inr missing ↦ rw (plain, missing) (own-insert_new_other j k v es h)
    ]
  ]
