-- ===== src/Acl/Tests.antt =====
-- The access control of src/auth/acl.ts on concrete policies, and instances of its theorems.
use mcp_conduit.Base.{◌≡◌, ◌≢◌, ◌↔◌, ◌⊎◌, refl, true, false, some, [], ◌∷◌, ◌++◌, ℕ_discrete}
use mcp_conduit.Base.Text.{Text, text_dec, codes, starts_with}
use mcp_conduit.Acl.{
  AclPolicy, by_default_allow, by_default_deny, evaluate_acl, matches_pattern, star,
}
use mcp_conduit.Acl.Decisions.{Unknown, Decides, Grants, evaluate_acl_iff}
use mcp_conduit.Acl.Patterns.{matches_pattern_iff}

-- Agents may read everything, except on the server "hr".
abbrev reading : AclPolicy
reading = record {
  name = codes "reading";
  clients = codes "agent-*" ∷ [];
  allow = some (record { server = codes "*"; tools = codes "get_*" ∷ [] } ∷ []);
  deny = some (record { server = codes "hr"; tools = codes "*" ∷ [] } ∷ []);
}

program : Unit {0}
unfolding evaluate_acl matches_pattern text_dec starts_with ℕ_discrete
program = tt

reads :
    (evaluate_acl
      (codes "agent-1")
      (codes "gh")
      (codes "get_user")
      (reading ∷ [])
      by_default_deny).allowed
    ≡ true
unfolding program
reads = refl

hr_denied :
    (evaluate_acl
      (codes "agent-1")
      (codes "hr")
      (codes "get_user")
      (reading ∷ [])
      by_default_allow).allowed
    ≡ false
unfolding program
hr_denied = refl

reason_told :
    (evaluate_acl (codes "bob") (codes "gh") (codes "x") (reading ∷ []) by_default_allow).reason
    ≡ codes "Aucune politique trouvée, action par défaut : autoriser"
unfolding program
reason_told = refl

evaluate_acl_iff_example :
    ((evaluate_acl
        (codes "agent-1")
        (codes "gh")
        (codes "get_user")
        (reading ∷ [])
        by_default_deny).allowed
      ≡ true)
    ↔ ((Unknown (codes "agent-1") (reading ∷ []) × (by_default_deny ≡ by_default_allow))
        ⊎ ((policy : AclPolicy) × Decides (codes "agent-1") policy (reading ∷ [])
            × Grants (codes "gh") (codes "get_user") policy))
evaluate_acl_iff_example =
    evaluate_acl_iff (codes "agent-1") (codes "gh") (codes "get_user") (reading ∷ [])
      by_default_deny

matches_pattern_iff_example :
    ((matches_pattern (codes "get_" ++ star ∷ []) (codes "get_user") ≡ true)
      ↔ ((rest : Text) × (codes "get_user" ≡ codes "get_" ++ rest)))
    × (((q : Text) → codes "get_" ≢ q ++ star ∷ [])
        → (matches_pattern (codes "get_") (codes "get_user") ≡ true)
          ↔ (codes "get_" ≡ codes "get_user"))
matches_pattern_iff_example = matches_pattern_iff (codes "get_") (codes "get_user")
