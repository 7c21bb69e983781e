-- ===== src/Acl/Patterns.antt =====
-- What a pattern matches.
use mcp_conduit.Base.{
  ℕ, ◌≡◌, ◌≢◌, ◌↔◌, refl, true, false, [], ◌∷◌, ◌++◌, arith, is, inl, inr, Bool-cases, ℕ_discrete,
  ap, sym, subst,
}
use mcp_conduit.Base.Text.{Text, text_dec, starts_with, starts_with_iff}
use mcp_conduit.Acl.{star, ends_with_star, but_last, matches_pattern}

ends-append : (p : Text) → ends_with_star (p ++ star ∷ []) ≡ true
unfolding ends_with_star
ends-append [] = refl
ends-append (c ∷ []) = refl
ends-append (c ∷ d ∷ p) = ends-append (d ∷ p)

but_last-append : (p : Text) → but_last (p ++ star ∷ []) ≡ p
unfolding but_last
but_last-append [] = refl
but_last-append (c ∷ []) = refl
but_last-append (c ∷ d ∷ p) = ap (λ t. c ∷ t) (but_last-append (d ∷ p))

ends-split : (p : Text) → ends_with_star p ≡ true → p ≡ but_last p ++ star ∷ []
unfolding ends_with_star but_last
ends-split [] h = ground arith
ends-split (c ∷ []) h = ground arith
ends-split (c ∷ d ∷ p) h = ap (λ t. c ∷ t) (ends-split (d ∷ p) h)

not_star : (c : ℕ) (p : Text) → ◌≢◌ {A = Text} (c ∷ (p ++ star ∷ [])) (star ∷ [])
not_star c [] e = ground arith
not_star c (d ∷ p) e = ground arith

matches-other :
    (p value : Text)
    → p ≢ star ∷ []
    → ends_with_star p ≡ true
    → matches_pattern p value ≡ starts_with (but_last p) value
unfolding matches_pattern
matches-other p value h e = ground arith

matches-plain :
    (p value : Text)
    → p ≢ star ∷ []
    → ends_with_star p ≡ false
    → matches_pattern p value ≡ is (text_dec p value)
unfolding matches_pattern
matches-plain p value h e = ground arith

matches-star : (p value : Text) → matches_pattern (p ++ star ∷ []) value ≡ starts_with p value
unfolding starts_with matches_pattern text_dec ℕ_discrete
matches-star [] value = refl
matches-star (c ∷ p) value = cc (
  matches-other (c ∷ (p ++ star ∷ [])) value (not_star c p) (ends-append (c ∷ p)),
  but_last-append (c ∷ p),
)

-- A pattern that ends in a star matches the values that start with what stands before the star; any
-- other pattern matches the value that is equal to it.
pub matches_pattern_iff :
    (p value : Text)
    → ((matches_pattern (p ++ star ∷ []) value ≡ true) ↔ ((rest : Text) × (value ≡ p ++ rest)))
      × (((q : Text) → p ≢ q ++ star ∷ []) → (matches_pattern p value ≡ true) ↔ (p ≡ value))
matches_pattern_iff p value = (
  subst (λ b. (b ≡ true) ↔ ((rest : Text) × (value ≡ p ++ rest))) (sym (matches-star p value))
      (starts_with_iff p value),
  λ plain. elim (Bool-cases (ends_with_star p)) [
    | inl ends ↦ absurd (plain (but_last p) (ends-split p ends))
    | inr other ↦ ground (arith, matches-plain p value (plain []) other)
  ],
)
