-- ===== src/Limiter/Keys.antt =====
-- The storage keys: a key and a window have one of their own.
use mcp_conduit.Base.{ℕ, ◌≡◌, ◌≢◌, refl, subst, sym, [], ◌∷◌, ◌++◌, arith, All, ◌≤◌, ◌<◌}
use mcp_conduit.Base.Decimal.{decimal, decimal-injective, decimal-digits}
use mcp_conduit.Base.Text.{Text}
use mcp_conduit.Limiter.{storage_key}

abbrev pub colon : ℕ
colon = b':'

abbrev pub ColonFree : Text → Type 0
ColonFree s = All (λ c. c ≢ colon) s

pub digits-ColonFree : (s : Text) → All (λ c. (48 ≤ c) × (c < 58)) s → ColonFree s
digits-ColonFree [] h = tt
digits-ColonFree (c ∷ s) h = (omega arith, digits-ColonFree s h.1)

not-ColonFree : (s t : Text) → ¬ ColonFree (s ++ colon ∷ t)
not-ColonFree [] t h = h.0 refl
not-ColonFree (c ∷ s) t h = not-ColonFree s t h.1

tail_eq : (c d : ℕ) (s t : Text) → ◌≡◌ {A = Text} (c ∷ s) (d ∷ t) → (c ≡ d) × (s ≡ t)
tail_eq c d s t e = ground arith

-- The last colon of such a text is where the parts meet.
split_at_last :
    (s s' t t' : Text)
    → ColonFree t
    → ColonFree t'
    → s ++ colon ∷ t ≡ s' ++ colon ∷ t'
    → (s ≡ s') × (t ≡ t')
split_at_last [] [] t t' h h' e = (refl, (tail_eq colon colon t t' e).1)
split_at_last [] (c ∷ s') t t' h h' e =
    absurd (not-ColonFree s' t' (subst ColonFree (tail_eq colon c t (s' ++ colon ∷ t') e).1 h))
split_at_last (c ∷ s) [] t t' h h' e =
    absurd (not-ColonFree s t (subst ColonFree (sym (tail_eq c colon (s ++ colon ∷ t) t' e).1) h'))
split_at_last (c ∷ s) (c' ∷ s') t t' h h' e =
    let (heads, tails) = tail_eq c c' (s ++ colon ∷ t) (s' ++ colon ∷ t') e in
    let (same, rest) = split_at_last s s' t t' h h' tails in (cc, rest)

-- Two buckets share a storage key only if they are for the same key and the same window, even if the
-- keys hold colons.
pub storage_key-injective :
    (key key' : Text) (window window' : ℕ)
    → storage_key key window ≡ storage_key key' window'
    → (key ≡ key') × (window ≡ window')
unfolding storage_key
storage_key-injective key key' w w' e =
    let (keys, digits) =
      split_at_last key key' (decimal w) (decimal w') (digits-ColonFree _ (decimal-digits w))
        (digits-ColonFree _ (decimal-digits w')) e in
    (keys, decimal-injective w w' digits)
