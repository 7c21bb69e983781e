-- ===== src/Redactor/Tests.antt =====
-- Masking concrete values; the texts are in lower case.
use mcp_conduit.Base.{ℕ, ◌≡◌, refl, [], ◌∷◌, ℕ_discrete}
use mcp_conduit.Base.Json.{
  Json, num, str, obj, end, field, is_index, goes_before, insert_new, replace, has_key, assign,
}
use mcp_conduit.Base.Text.{text_dec, codes}
use mcp_conduit.Redactor.{redact, redacted_value, is_sensitive_field, split_into_segments}
use mcp_conduit.Redactor.Masking.{IsMasked, redact-IsMasked}

abbrev login : Json ℕ
login = obj (
    field (codes "user") (str (codes "ann")) (
      field (codes "auth")
        (obj
          (field (codes "access_token") (str (codes "x")) (field (codes "tokenizer") (num 1) end)))
        end))

program : Unit {0}
unfolding redact is_sensitive_field split_into_segments assign insert_new replace has_key
    goes_before is_index text_dec ℕ_discrete
program = tt

masked :
    redact (λ t. t) (codes "token" ∷ []) login
    ≡ obj (
        field (codes "user") (str (codes "ann")) (
          field
            (codes "auth")
            (obj (
              field
                (codes "access_token")
                (str redacted_value)
                (field (codes "tokenizer") (num 1) end)))
            end))
unfolding program
masked = refl

redact-IsMasked_example :
    IsMasked (λ t. t) (codes "token" ∷ []) (redact (λ t. t) (codes "token" ∷ []) login)
redact-IsMasked_example = redact-IsMasked (λ t. t) (codes "token" ∷ []) login
