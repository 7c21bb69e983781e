-- ===== src/Base/Json.antt =====
-- The values of JSON, over any type of numbers, and the objects that JavaScript builds from them.
--
-- An object is the list of its own properties in their order: first the keys that are array indices, in
-- ascending order, and then the others in the order in which they were added.
pub mod Order
pub mod Objects
use mcp_conduit.Base.Lists.{length}
use mcp_conduit.Base.Text.{Text, text_dec, codes}
use mcp_conduit.Base.Tests.{ltb, leb, ◌==◌, if◌then◌else◌, is}
use Prim.Native.Nat.{ℕ, zero, suc, ◌+◌, ◌*◌, ◌-◌}
use mathlib.Core.Path.{◌≡◌, refl}
use mathlib.Core.Logic.{ite}
use mathlib.Core.Bool.{Bool, true, false, ◌&&◌, ◌||◌}
use mathlib.Core.Option.{Option, none, some}
use mathlib.Core.List.{List, [], ◌∷◌}

mutual
  pub data Json (N : Type 0) : Type 0 where
    null : Json N
    bool : Bool → Json N
    num : N → Json N
    str : Text → Json N
    arr : Items N → Json N
    obj : Fields N → Json N

  pub data Items (N : Type 0) : Type 0 where
    nil : Items N
    cons : Json N → Items N → Items N

  pub data Fields (N : Type 0) : Type 0 where
    end : Fields N
    field : Text → Json N → Fields N → Fields N

-- What the program uses of numbers: the natural numbers, their opposites, and the comparisons of
-- JavaScript.
pub record Numbers (N : Type 0) : Type 0 where
  pub of_nat : ℕ → N
  pub minus : ℕ → N
  pub eq : N → N → Bool
  pub lt : N → N → Bool
  pub le : N → N → Bool

-- The entries of an object, as `Object.entries` gives them.
abbrev pub entries : {N : Type 0} → Fields N → List (Text × Json N)
entries end = []
entries (field k v fs) = (k, v) ∷ entries fs

abbrev pub of_entries : {N : Type 0} → List (Text × Json N) → Fields N
of_entries [] = end
of_entries ((k, v) ∷ es) = field k v (of_entries es)

abbrev pub items : {N : Type 0} → Items N → List (Json N)
items nil = []
items (cons v vs) = v ∷ items vs

-- `a < b` between strings, by their code units.
unfoldable pub text_ltb : Text → Text → Bool
text_ltb a [] = false
text_ltb [] (d ∷ b) = true
text_ltb (c ∷ a) (d ∷ b) = ltb c d || (c == d && text_ltb a b)

all_digits : Text → Bool
all_digits [] = true
all_digits (c ∷ s) = leb b'0' c && leb c b'9' && all_digits s

value_of : ℕ → Text → ℕ
value_of acc [] = acc
value_of acc (c ∷ s) = value_of (acc * 10 + (c - 48)) s

-- Whether a key is an array index: a number below 2^32 - 1 in its usual decimal form.
unfoldable pub is_index : Text → Bool
unfolding all_digits value_of
is_index [] = false
is_index (c ∷ []) = all_digits (c ∷ [])
is_index (c ∷ d ∷ s) =
    all_digits (c ∷ d ∷ s)
    && ltb b'0' c
    && leb (length (c ∷ d ∷ s)) 10
    && ltb (value_of 0 (c ∷ d ∷ s)) 4294967295

-- The order of two indices: the shorter one is the smaller number.
index_ltb : Text → Text → Bool
index_ltb a b = ltb (length a) (length b) || (length a == length b && text_ltb a b)

-- Whether a new key `k` stands before a key `j` that is there.
unfoldable pub goes_before : Text → Text → Bool
unfolding index_ltb
goes_before k j = is_index k && (if is_index j then index_ltb k j else true)

module _ {N : Type 0} where
  unfoldable pub insert_new : Text → Json N → List (Text × Json N) → List (Text × Json N)
  insert_new k v [] = (k, v) ∷ []
  insert_new k v ((j, w) ∷ es) =
      let rest = insert_new k v es in
      if goes_before k j then (k, v) ∷ (j, w) ∷ es else (j, w) ∷ rest

  unfoldable pub replace : Text → Json N → List (Text × Json N) → List (Text × Json N)
  replace k v [] = []
  replace k v ((j, w) ∷ es) = ite (text_dec k j) ((j, v) ∷ es) ((j, w) ∷ replace k v es)

  unfoldable pub has_key : Text → List (Text × Json N) → Bool
  has_key k [] = false
  has_key k ((j, w) ∷ es) = is (text_dec k j) || has_key k es

  -- `object[key] = value` on an object that was made by `{}`. The key `__proto__` names the prototype
  -- and adds no property.
  unfoldable pub assign : Text → Json N → List (Text × Json N) → List (Text × Json N)
  unfolding insert_new replace has_key
  assign k v es =
      if is (text_dec k (codes "__proto__"))
      then es
      else (if has_key k es then replace k v es else insert_new k v es)

  -- `object[key]` for a property of the object itself.
  unfoldable pub own : Text → List (Text × Json N) → Option (Json N)
  own k [] = none
  own k ((j, w) ∷ es) = ite (text_dec k j) (some w) (own k es)
