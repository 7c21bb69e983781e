-- ===== src/Base/JsMap.antt =====
-- The built-in `Map`: its entries in insertion order, which is the order of its iteration.
use Prim.Native.Nat.{◌+◌, ◌≤◌}
use mathlib.Core.Path.{◌≡◌, refl}
use mathlib.Core.Bool.{Bool, true, false}
use mathlib.Core.List.{List, [], ◌∷◌, map}
use mathlib.Core.Logic.{◌≢◌, ite}
use mathlib.Core.Option.{Option, none, some}
use native.Mathlib.Omega.{arith}
use mcp_conduit.Base.Lists.{length}

module _ {ℓ} {K V : Type ℓ} where
  abbrev pub keys : List (K × V) → List K
  keys = map (λ e. e.0)

  abbrev pub values : List (K × V) → List V
  values = map (λ e. e.1)

module _ {ℓ} {K V : Type ℓ} (dec : Discrete K) where
  -- `map.get(key)`
  unfoldable pub get : K → List (K × V) → Option V
  get k [] = none
  get k ((j, v) ∷ m) = ite (dec k j) (some v) (get k m)

  -- `map.has(key)`
  unfoldable pub has : K → List (K × V) → Bool
  unfolding get
  has k m = elim (get k m) [ none ↦ false | some _ ↦ true ]

  -- `map.set(key, value)`: in place if the key is there, and at the end if it is new.
  unfoldable pub put : K → V → List (K × V) → List (K × V)
  put k v [] = (k, v) ∷ []
  put k v ((j, w) ∷ m) = ite (dec k j) ((j, v) ∷ m) ((j, w) ∷ put k v m)

  -- `map.delete(key)`
  unfoldable pub delete : K → List (K × V) → List (K × V)
  delete k [] = []
  delete k ((j, w) ∷ m) = ite (dec k j) m ((j, w) ∷ delete k m)

  -- No key stands twice.
  abbrev pub Fresh : K → List (K × V) → Type ℓ
  Fresh k [] = Unit
  Fresh k ((j, v) ∷ m) = (k ≢ j) × Fresh k m

  abbrev pub Distinct : List (K × V) → Type ℓ
  Distinct [] = Unit
  Distinct ((j, v) ∷ m) = Fresh j m × Distinct m

  pub get-nil : (k : K) → get k [] ≡ none
  unfolding get
  get-nil k = refl

  pub get-put :
      (j k : K) (v : V) (m : List (K × V)) → get j (put k v m) ≡ ite (dec j k) (some v) (get j m)
  unfolding get put
  get-put j k v [] = refl
  get-put j k v ((i, w) ∷ m) = ground (arith, get-put j k v m)

  pub has-get : (k : K) (m : List (K × V)) → has k m ≡ false → get k m ≡ none
  unfolding has
  has-get k m h = ground arith

  pub get_of_Fresh : (k : K) (m : List (K × V)) → Fresh k m → get k m ≡ none
  unfolding get
  get_of_Fresh k [] f = refl
  get_of_Fresh k ((j, v) ∷ m) f = ground (arith, get_of_Fresh k m)

  pub get-delete :
      (j k : K) (m : List (K × V)) → Distinct m → get j (delete k m) ≡ ite (dec j k) none (get j m)
  unfolding get delete
  get-delete j k [] d = ground arith
  get-delete j k ((i, w) ∷ m) d = ground (arith, get-delete j k m d.1, get_of_Fresh k m)

  pub put-Fresh : (j k : K) (v : V) (m : List (K × V)) → Fresh j m → j ≢ k → Fresh j (put k v m)
  unfolding put
  put-Fresh j k v [] f h = (h, tt)
  put-Fresh j k v ((i, w) ∷ m) f h = ground (arith, put-Fresh j k v m f.1 h)

  pub put-Distinct : (k : K) (v : V) (m : List (K × V)) → Distinct m → Distinct (put k v m)
  unfolding put
  put-Distinct k v [] d = (tt, tt)
  put-Distinct k v ((i, w) ∷ m) d = ground (arith, put-Distinct k v m d.1, put-Fresh i k v m d.0)

  pub delete-Fresh : (j k : K) (m : List (K × V)) → Fresh j m → Fresh j (delete k m)
  unfolding delete
  delete-Fresh j k [] f = tt
  delete-Fresh j k ((i, w) ∷ m) f = ground (arith, delete-Fresh j k m f.1)

  pub delete-Distinct : (k : K) (m : List (K × V)) → Distinct m → Distinct (delete k m)
  unfolding delete
  delete-Distinct k [] d = tt
  delete-Distinct k ((i, w) ∷ m) d = ground (arith, delete-Distinct k m d.1, delete-Fresh i k m d.0)

  pub length-put_new :
      (k : K) (v : V) (m : List (K × V)) → get k m ≡ none → length (put k v m) ≡ length m + 1
  unfolding put get
  length-put_new k v [] h = omega arith
  length-put_new k v ((i, w) ∷ m) h = ground (arith, length-put_new k v m)

  pub length-put_old :
      (k : K) (v u : V) (m : List (K × V)) → get k m ≡ some u → length (put k v m) ≡ length m
  unfolding put get
  length-put_old k v u [] h = cc
  length-put_old k v u ((i, w) ∷ m) h = ground (arith, length-put_old k v u m)

  pub length-put-le : (k : K) (v : V) (m : List (K × V)) → length (put k v m) ≤ length m + 1
  unfolding put
  length-put-le k v [] = omega arith
  length-put-le k v ((i, w) ∷ m) = ground (arith, length-put-le k v m)

  pub get-has : (k : K) (m : List (K × V)) → has k m ≡ true → (v : V) × (get k m ≡ some v)
  unfolding has
  get-has k m h = ground arith

  pub length-delete-le : (k : K) (m : List (K × V)) → length (delete k m) ≤ length m
  unfolding delete
  length-delete-le k [] = omega arith
  length-delete-le k ((i, w) ∷ m) = ground (arith, length-delete-le k m)
