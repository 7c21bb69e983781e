-- ===== src/Acl.antt =====
-- The patterns of src/utils/pattern.ts and the access control of src/auth/acl.ts.
pub mod Patterns
pub mod Decisions
mod Tests
use mcp_conduit.Base.{
  ℕ, Bool, true, false, ◌&&◌, List, [], ◌∷◌, ◌++◌, any, keep, Option, none, some, if◌then◌else◌, is,
  ◌==◌,
}
use mcp_conduit.Base.Text.{Text, text_dec, codes, starts_with}
use mcp_conduit.Tools.{ToolMetadata}

abbrev pub star : ℕ
star = b'*'

-- `pattern.endsWith('*')`
ends_with_star : Text → Bool
ends_with_star [] = false
ends_with_star (c ∷ []) = c == star
ends_with_star (c ∷ d ∷ pattern) = ends_with_star (d ∷ pattern)

-- `pattern.slice(0, -1)`
but_last : Text → Text
but_last [] = []
but_last (c ∷ []) = []
but_last (c ∷ d ∷ pattern) = c ∷ but_last (d ∷ pattern)

unfoldable pub matches_pattern : Text → Text → Bool
unfolding ends_with_star but_last
matches_pattern pattern value =
    if is (text_dec pattern (star ∷ []))
    then true
    else (if ends_with_star pattern
        then starts_with (but_last pattern) value
        else is (text_dec pattern value))

unfoldable pub matches_any_pattern : List Text → Text → Bool
matches_any_pattern patterns value = any (λ pattern. matches_pattern pattern value) patterns

pub record AclRule : Type 0 where
  pub server : Text
  pub tools : List Text

pub record AclPolicy : Type 0 where
  pub name : Text
  pub clients : List Text
  pub allow : Option (List AclRule)
  pub deny : Option (List AclRule)

pub record AclDecision : Type 0 where
  pub allowed : Bool
  pub policy_name : Text
  pub reason : Text

pub data DefaultAction : Type 0 where
  by_default_allow by_default_deny : DefaultAction

abbrev pub client_matches_policy : Text → List Text → Bool
client_matches_policy client clients = any (λ pattern. matches_pattern pattern client) clients

abbrev tool_matches_rule : Text → List Text → Bool
tool_matches_rule tool patterns = any (λ pattern. matches_pattern pattern tool) patterns

abbrev server_matches_rule : Text → Text → Bool
server_matches_rule server pattern = matches_pattern pattern server

-- The test in the loops over the rules.
abbrev pub rule_matches : Text → Text → AclRule → Bool
rule_matches server tool rule =
    server_matches_rule server rule.server && tool_matches_rule tool rule.tools

-- A missing list of rules is passed over, as an empty one is.
abbrev pub rules : Option (List AclRule) → List AclRule
rules none = []
rules (some rs) = rs

abbrev quoted : Text → Text
quoted s = codes "\"" ++ s ++ codes "\""

abbrev about_call : Text → Text → Text
about_call server tool = quoted tool ++ codes " sur " ++ quoted server

-- The rest of the loop's body for the first policy that has the client.
decide : Text → Text → AclPolicy → AclDecision
decide server tool policy =
    if any (rule_matches server tool) (rules policy.deny)
    then record {
      allowed = false;
      policy_name = policy.name;
      reason =
          codes "Refusé par la politique "
          ++ quoted policy.name
          ++ codes " : outil "
          ++ about_call server tool;
    }
    else (if any (rule_matches server tool) (rules policy.allow)
        then record {
          allowed = true;
          policy_name = policy.name;
          reason =
              codes "Autorisé par la politique "
              ++ quoted policy.name
              ++ codes " : outil "
              ++ about_call server tool;
        }
        else record {
          allowed = false;
          policy_name = policy.name;
          reason =
              codes "Aucune règle dans "
              ++ quoted policy.name
              ++ codes " pour l'outil "
              ++ about_call server tool;
        })

by_default : DefaultAction → AclDecision
by_default by_default_allow = record {
  allowed = true;
  policy_name = [];
  reason = codes "Aucune politique trouvée, action par défaut : autoriser";
}
by_default by_default_deny = record {
  allowed = false;
  policy_name = [];
  reason = codes "Aucune politique trouvée, action par défaut : refuser";
}

unfoldable pub evaluate_acl : Text → Text → Text → List AclPolicy → DefaultAction → AclDecision
unfolding decide by_default
evaluate_acl client server tool [] default_action = by_default default_action
evaluate_acl client server tool (policy ∷ policies) default_action =
    let rest = evaluate_acl client server tool policies default_action in
    if client_matches_policy client policy.clients then decide server tool policy else rest

unfoldable pub filter_tools_list :
    Text → Text → List ToolMetadata → List AclPolicy → DefaultAction → List ToolMetadata
filter_tools_list client server tools policies default_action =
    keep (λ tool. (evaluate_acl client server tool.name policies default_action).allowed) tools
