-- ===== src/Guardrails/Tests.antt =====
-- Guardrails on concrete calls.
use mcp_conduit.Base.{
  ℕ, ◌≡◌, ◌⊎◌, ◌↔◌, refl, true, false, [], ◌∷◌, Option, none, some, ltb, leb, ◌==◌, if◌then◌else◌,
  is, ℕ_discrete,
}
use mcp_conduit.Base.Json.{Json, num, end, field, Numbers, own}
use mcp_conduit.Base.Text.{Text, text_dec, codes}
use mcp_conduit.Guardrails.{
  GuardrailRule, GuardrailContext, GuardrailsConfig, Builtins, gt, block, act, by_default_allow,
  by_default_block, bypasses, evaluate_guardrails, evaluate_rules, evaluate_condition,
  resolve_field, follow, property, split_path,
}
use mcp_conduit.Guardrails.Rules.{evaluate_guardrails_iff, NoneApplies, Decides}

abbrev numbers : Numbers ℕ
numbers = record { of_nat = λ n. n; minus = λ n. n; eq = λ m n. m == n; lt = ltb; le = leb }

abbrev to_string : Text → Option ℕ
to_string t = if is (text_dec t (codes "toString")) then some 0 else none

-- Every object has a method `toString`.
abbrev builtins : Builtins ℕ ℕ
builtins = record { of_object = to_string; of_array = λ t. none; member = λ b t. none }

abbrev too_large : GuardrailRule ℕ
too_large = record {
  name = codes "large";
  tools = none;
  clients = none;
  servers = none;
  bypass = none;
  conditions =
      some (record { field = codes "batch.size"; operator = gt; value = some (num 100) } ∷ []);
  action = block;
  message = none;
  severity = none;
  webhook = none;
}

abbrev config : GuardrailsConfig ℕ
config = record { enabled = true; default_action = by_default_allow; rules = too_large ∷ [] }

abbrev call_of : ℕ → GuardrailContext ℕ
call_of n = record {
  client_id = codes "c";
  server_id = codes "s";
  tool_name = codes "t";
  tool_args = field (codes "batch") (Json.obj (field (codes "size") (num n) end)) end;
}

program : Unit {0}
unfolding evaluate_guardrails evaluate_rules evaluate_condition resolve_field follow property
    split_path own text_dec ℕ_discrete
program = tt

blocked :
    (evaluate_guardrails numbers builtins (λ r s. none) (call_of 200) config).action ≡ act block
unfolding program
blocked = refl

evaluate_guardrails_iff_example :
    ((evaluate_guardrails numbers builtins (λ r s. none) (call_of 200) config).action ≡ act block)
    ↔ ((NoneApplies numbers builtins (λ r s. none) (call_of 200) config.rules
          × (config.default_action ≡ by_default_block))
        ⊎ ((rule : GuardrailRule ℕ) × Decides numbers builtins
              (λ r s. none)
              (call_of 200)
              rule
              config.rules
            × (bypasses rule ≡ false)
            × (rule.action ≡ block)))
evaluate_guardrails_iff_example =
    evaluate_guardrails_iff numbers builtins (λ r s. none) (call_of 200) config
