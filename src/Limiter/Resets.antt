-- ===== src/Limiter/Resets.antt =====
-- What `reset` removes.
use mcp_conduit.Base.{
  ◌⊎◌, ℕ, ◌≡◌, ◌≢◌, refl, ap, sym, subst, Bool, true, false, not, List, [], ◌∷◌, ◌++◌, keep, arith,
  inl, inr, none, Bool-cases,
}
use mcp_conduit.Base.JsMap
use mcp_conduit.Base.Decimal.{decimal, decimal-digits}
use mcp_conduit.Base.Text.{Text, text_dec, starts_with}
use mcp_conduit.Limiter.{SlidingWindowLimiter, storage_key, reset}
use mcp_conduit.Limiter.Keys.{ColonFree, colon, digits-ColonFree}

-- Entries that a test on the key drops are gone, and the others are as they were.
get-keep :
    (p : Text → Bool) (k : Text) (m : List (Text × List ℕ))
    → (p k ≡ false → JsMap.get text_dec k (keep (λ e. p e.0) m) ≡ none)
      × (p k ≡ true → JsMap.get text_dec k (keep (λ e. p e.0) m) ≡ JsMap.get text_dec k m)
unfolding JsMap.get
get-keep p k [] = ground arith
get-keep p k ((j, v) ∷ m) = ground (arith, get-keep p k m)

no_colon : (s t : Text) → ColonFree t → starts_with (s ++ colon ∷ []) t ≡ false
unfolding starts_with
no_colon [] [] h = refl
no_colon [] (d ∷ t) h = ground arith
no_colon (c ∷ s) [] h = refl
no_colon (c ∷ s) (d ∷ t) h = ground (arith, no_colon s t)

-- The prefix that `reset` looks for, in a storage key.
starts-storage_key :
    (key key' digits : Text)
    → ColonFree digits
    → starts_with (key ++ colon ∷ []) (key' ++ colon ∷ digits) ≡ true
    → (key ≡ key') ⊎ (starts_with (key ++ colon ∷ []) key' ≡ true)
unfolding starts_with
starts-storage_key [] [] digits h e = inl refl
starts-storage_key [] (d ∷ key') digits h e = inr (ground arith)
starts-storage_key (c ∷ key) [] digits h e = ground (arith, no_colon key digits h)
starts-storage_key (c ∷ key) (d ∷ key') digits h e =
    elim (starts-storage_key key key' digits h (ground arith)) [
      | inl same ↦ inl (ground arith)
      | inr more ↦ inr (ground arith)
    ]

starts-own_key :
    (key digits : Text) → starts_with (key ++ colon ∷ []) (key ++ colon ∷ digits) ≡ true
unfolding starts_with
starts-own_key [] digits = ground arith
starts-own_key (c ∷ key) digits = ground (arith, starts-own_key key digits)

starts-longer :
    (prefix value rest : Text)
    → starts_with prefix value ≡ true
    → starts_with prefix (value ++ rest) ≡ true
unfolding starts_with
starts-longer [] value rest h = refl
starts-longer (c ∷ prefix) [] rest h = ground arith
starts-longer (c ∷ prefix) (d ∷ value) rest h = ground (arith, starts-longer prefix value rest)

free-storage_key :
    (key key' : Text) (w : ℕ)
    → key' ≢ key
    → starts_with (key ++ colon ∷ []) key' ≡ false
    → starts_with (key ++ colon ∷ []) (key' ++ colon ∷ decimal w) ≡ false
free-storage_key key key' w other free =
    elim (Bool-cases (starts_with (key ++ colon ∷ []) (key' ++ colon ∷ decimal w))) [
      | inl found ↦
          elim (starts-storage_key key key' (decimal w) (digits-ColonFree _ (decimal-digits w))
            found) [ inl same ↦ absurd (other (sym same)) | inr more ↦ cc (more, free) ]
      | inr e ↦ e
    ]

-- A reset of a key removes the buckets of all its windows, and of all windows of the keys that start
-- with the key and a colon. The buckets of all other keys stay as they are.
pub reset-keys :
    (l : SlidingWindowLimiter) (key key' : Text) (w : ℕ)
    → let bucket = JsMap.get text_dec (storage_key key' w) in
      ((key' ≡ key) ⊎ (starts_with (key ++ colon ∷ []) key' ≡ true)
        → bucket (reset l key).store ≡ none)
      × (key' ≢ key
          → starts_with (key ++ colon ∷ []) key' ≡ false
          → bucket (reset l key).store ≡ bucket l.store)
unfolding reset storage_key
reset-keys l key key' w =
    let (drops, keeps) =
      get-keep (λ k. not (starts_with (key ++ colon ∷ []) k)) (storage_key key' w) l.store in
    (
      λ h. elim h [
        | inl same ↦ drops (
            subst (λ k. not (starts_with (key ++ colon ∷ []) (k ++ colon ∷ decimal w)) ≡ false)
              (sym same) (ap not (starts-own_key key (decimal w))))
        | inr more ↦
            drops (ap not (starts-longer (key ++ colon ∷ []) key' (colon ∷ decimal w) more))
      ],
      λ other free. keeps (ap not (free-storage_key key key' w other free)),
    )
