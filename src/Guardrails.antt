-- ===== src/Guardrails.antt =====
-- The guardrails of src/guardrails/evaluator.ts.
--
-- `resolveField` reads properties with `current[part]`, which also finds what objects and arrays inherit.
-- The inherited values are of a type `B` that the model does not look into: what there is to be found is
-- a parameter, and so is the engine of regular expressions, which returns nothing where `new RegExp`
-- throws.
pub mod Rules
mod Tests
use mcp_conduit.Acl.{matches_any_pattern}
use mcp_conduit.Base.{
  ℕ, suc, Bool, true, false, not, ◌&&◌, ◌||◌, List, [], ◌∷◌, ◌++◌, any, all, Option, none, some,
  if◌then◌else◌, is, length, ◌==◌, ite,
}
use mcp_conduit.Base.Decimal.{decimal}
use mcp_conduit.Base.Json.{
  Json, null, bool, num, str, arr, obj, Items, nil, cons, Numbers, entries, items, own,
}
use mcp_conduit.Base.Json as JsonValues
use mcp_conduit.Base.Text.{Text, text_dec, codes, starts_with}

pub data ConditionOperator : Type 0 where
  eq neq gt gte lt lte contains not_contains matches exists not_exists : ConditionOperator

pub data GuardrailAction : Type 0 where
  block alert require_approval transform : GuardrailAction

pub data GuardrailSeverity : Type 0 where
  low medium high critical : GuardrailSeverity

pub record GuardrailCondition (N : Type 0) : Type 0 where
  pub field : Text
  pub operator : ConditionOperator
  pub value : Option (Json N)

pub record GuardrailRule (N : Type 0) : Type 0 where
  pub name : Text
  pub tools : Option (List Text)
  pub clients : Option (List Text)
  pub servers : Option (List Text)
  pub bypass : Option Bool
  pub conditions : Option (List (GuardrailCondition N))
  pub action : GuardrailAction
  pub message : Option Text
  pub severity : Option GuardrailSeverity
  pub webhook : Option Text

pub data DefaultAction : Type 0 where
  by_default_allow by_default_block : DefaultAction

pub record GuardrailsConfig (N : Type 0) : Type 0 where
  pub enabled : Bool
  pub default_action : DefaultAction
  pub rules : List (GuardrailRule N)

-- `'allow' | GuardrailAction`
pub data FinalAction : Type 0 where
  allow : FinalAction
  act : GuardrailAction → FinalAction

pub record GuardrailDecision : Type 0 where
  pub action : FinalAction
  pub rule_name : Text
  pub reason : Text
  pub severity : Option GuardrailSeverity
  pub webhook : Option Text

pub record GuardrailContext (N : Type 0) : Type 0 where
  pub client_id : Text
  pub server_id : Text
  pub tool_name : Text
  pub tool_args : JsonValues.Fields N

-- A value of JavaScript: one of JSON, or one that an object or an array inherits.
pub data Value (N B : Type 0) : Type 0 where
  json : Json N → Value N B
  inherited : B → Value N B

-- What `value[name]` finds in the prototypes of objects and of arrays, and in a value found there, where
-- `typeof` calls that an object.
pub record Builtins (N B : Type 0) : Type 0 where
  pub of_object : Text → Option B
  pub of_array : Text → Option B
  pub member : B → Text → Option (Value N B)

-- `fieldPath.split('.')`; the current part is collected in `part`.
split_from : Text → Text → List Text
split_from part [] = part ∷ []
split_from part (c ∷ s) =
    let ended = split_from [] s in
    let longer = split_from (part ++ (c ∷ [])) s in if c == b'.' then part ∷ ended else longer

unfoldable pub split_path : Text → List Text
unfolding split_from
split_path path = split_from [] path

-- `text.includes(part)`
unfoldable pub includes : Text → Text → Bool
includes [] part = starts_with part []
includes (c ∷ s) part = starts_with part (c ∷ s) || includes s part

-- A scope that is missing or empty holds for every value.
abbrev pub in_scope : Option (List Text) → Text → Bool
in_scope none value = true
in_scope (some []) value = true
in_scope (some (p ∷ ps)) value = matches_any_pattern (p ∷ ps) value

abbrev quoted : Text → Text
quoted s = codes "\"" ++ s ++ codes "\""

abbrev message_or : Option Text → Text → Text
message_or none m = m
message_or (some m) other = m

abbrev pub bypasses : {N : Type 0} → GuardrailRule N → Bool
bypasses rule = elim rule.bypass [ none ↦ false | some b ↦ b ]

bypass_decision : {N : Type 0} → GuardrailRule N → GuardrailContext N → GuardrailDecision
bypass_decision rule context = record {
  action = allow;
  rule_name = rule.name;
  reason =
      codes "Bypass par la règle "
      ++ quoted rule.name
      ++ codes " pour le client "
      ++ quoted context.client_id;
  severity = none;
  webhook = none;
}

rule_decision : {N : Type 0} → GuardrailRule N → GuardrailContext N → GuardrailDecision
rule_decision rule context = record {
  action = act rule.action;
  rule_name = rule.name;
  reason = message_or rule.message (
      codes "Règle "
      ++ quoted rule.name
      ++ codes " déclenchée sur l'outil "
      ++ quoted context.tool_name);
  severity = rule.severity;
  webhook = rule.webhook;
}

by_default : DefaultAction → GuardrailDecision
by_default by_default_allow = record {
  action = allow;
  rule_name = [];
  reason = codes "Aucune règle guardrail déclenchée, action par défaut : autoriser";
  severity = none;
  webhook = none;
}
by_default by_default_block = record {
  action = act block;
  rule_name = [];
  reason = codes "Aucune règle guardrail déclenchée, action par défaut : bloquer";
  severity = none;
  webhook = none;
}

module _ {N B : Type 0} (numbers : Numbers N) (builtins : Builtins N B)
    (regex : Text → Text → Option Bool) where
  -- The item of an array whose index is written `key`, counting from `i`.
  item_at : ℕ → Text → List (Json N) → Option (Json N)
  item_at i key [] = none
  item_at i key (v ∷ vs) = ite (text_dec key (decimal i)) (some v) (item_at (suc i) key vs)

  abbrev or_inherited : Option (Json N) → Option B → Option (Value N B)
  or_inherited (some v) b = some (json v)
  or_inherited none none = none
  or_inherited none (some b) = some (inherited b)

  abbrev or_length : Text → Option (Json N) → List (Json N) → Option (Json N)
  or_length key (some v) vs = some v
  or_length key none vs =
      if is (text_dec key (codes "length")) then some (num (numbers.of_nat (length vs))) else none

  -- `current[part]` for an object; nothing for `undefined`, and for a value that is no object.
  unfoldable pub property : Value N B → Text → Option (Value N B)
  unfolding item_at
  property (json (obj fs)) part = or_inherited (own part (entries fs)) (builtins.of_object part)
  property (json (arr vs)) part =
      or_inherited (or_length part (item_at 0 part (items vs)) (items vs)) (builtins.of_array part)
  property (json null) part = none
  property (json (bool b)) part = none
  property (json (num n)) part = none
  property (json (str s)) part = none
  property (inherited b) part = builtins.member b part

  -- The loop over the parts of the path.
  unfoldable pub follow : Value N B → List Text → Option (Value N B)
  follow current [] = some current
  follow current (part ∷ parts) = elim (property current part) [
    | none ↦ none
    | some next ↦ follow next parts
  ]

  unfoldable pub resolve_field : JsonValues.Fields N → Text → Option (Value N B)
  resolve_field args path = follow (json (obj args)) (split_path path)

  -- `===` between values of JSON: two objects or two arrays are never the same one.
  strict_equals : Json N → Json N → Bool
  strict_equals null null = true
  strict_equals (bool true) (bool b) = b
  strict_equals (bool false) (bool b) = not b
  strict_equals (num m) (num n) = numbers.eq m n
  strict_equals (str s) (str t) = is (text_dec s t)
  strict_equals a b = false

  equals : Value N B → Option (Json N) → Bool
  unfolding strict_equals
  equals (json v) (some w) = strict_equals v w
  equals v w = false

  -- A comparison of two numbers; false for other values.
  compare_numbers : (N → N → Bool) → Value N B → Option (Json N) → Bool
  compare_numbers test (json (num m)) (some (num n)) = test m n
  compare_numbers test v w = false

  -- `includes` of strings and of arrays; nothing for other values.
  contains_value : Value N B → Option (Json N) → Option Bool
  unfolding equals
  contains_value (json (str s)) (some (str t)) = some (includes s t)
  contains_value (json (arr vs)) w = some (any (λ v. equals (json v) w) (items vs))
  contains_value v w = none

  matches_regex : Value N B → Option (Json N) → Bool
  matches_regex (json (str s)) (some (str t)) = elim (regex t s) [ none ↦ false | some b ↦ b ]
  matches_regex v w = false

  compare_value : Value N B → ConditionOperator → Option (Json N) → Bool
  unfolding equals compare_numbers contains_value matches_regex
  compare_value actual eq expected = equals actual expected
  compare_value actual neq expected = not (equals actual expected)
  compare_value actual gt expected = compare_numbers (λ m n. numbers.lt n m) actual expected
  compare_value actual gte expected = compare_numbers (λ m n. numbers.le n m) actual expected
  compare_value actual lt expected = compare_numbers numbers.lt actual expected
  compare_value actual lte expected = compare_numbers numbers.le actual expected
  compare_value actual contains expected = elim (contains_value actual expected) [
    | none ↦ false
    | some b ↦ b
  ]
  compare_value actual not_contains expected = elim (contains_value actual expected) [
    | none ↦ true
    | some b ↦ not b
  ]
  compare_value actual matches expected = matches_regex actual expected
  compare_value actual exists expected = false
  compare_value actual not_exists expected = false

  abbrev is_defined : Option (Value N B) → Bool
  is_defined none = false
  is_defined (some v) = true

  compare_defined : Option (Value N B) → ConditionOperator → Option (Json N) → Bool
  unfolding compare_value
  compare_defined none operator expected = false
  compare_defined (some actual) operator expected = compare_value actual operator expected

  evaluate_operator : Option (Value N B) → ConditionOperator → Option (Json N) → Bool
  unfolding compare_defined
  evaluate_operator actual exists expected = is_defined actual
  evaluate_operator actual not_exists expected = not (is_defined actual)
  evaluate_operator actual operator expected = compare_defined actual operator expected

  unfoldable pub evaluate_condition : GuardrailCondition N → JsonValues.Fields N → Bool
  unfolding evaluate_operator
  evaluate_condition condition args =
      evaluate_operator (resolve_field args condition.field) condition.operator condition.value

  -- Missing or empty conditions hold.
  abbrev pub all_match : Option (List (GuardrailCondition N)) → JsonValues.Fields N → Bool
  all_match none args = true
  all_match (some conditions) args = all (λ condition. evaluate_condition condition args) conditions

  -- The loop over the rules. A rule that the code passes over with `continue` leaves the rest to decide.
  unfoldable pub evaluate_rules :
      GuardrailContext N → List (GuardrailRule N) → DefaultAction → GuardrailDecision
  unfolding bypass_decision rule_decision by_default
  evaluate_rules context [] default_action = by_default default_action
  evaluate_rules context (rule ∷ rules) default_action =
      let rest = evaluate_rules context rules default_action in
      if not (in_scope rule.clients context.client_id)
      then rest
      else (if not (in_scope rule.servers context.server_id)
          then rest
          else (if bypasses rule
              then bypass_decision rule context
              else (if not (in_scope rule.tools context.tool_name)
                  then rest
                  else (if not (all_match rule.conditions context.tool_args)
                      then rest
                      else rule_decision rule context))))

  unfoldable pub evaluate_guardrails : GuardrailContext N → GuardrailsConfig N → GuardrailDecision
  evaluate_guardrails context config = evaluate_rules context config.rules config.default_action
