-- ===== src/Guardrails/Rules.antt =====
-- Which rule decides.
use mcp_conduit.Base.{
  ◌≡◌, ◌↔◌, ◌⊎◌, refl, ap, ◌∙◌, Bool, true, false, not, if◌then◌else◌, ◌&&◌, ◌||◌, List, [], ◌∷◌,
  ◌++◌, Option, arith, inl, inr, Bool-cases, Elem,
}
use mcp_conduit.Base.Json.{Numbers}
use mcp_conduit.Base.Text.{Text}
use mcp_conduit.Guardrails.{
  GuardrailRule, GuardrailContext, GuardrailsConfig, GuardrailDecision, block, act, DefaultAction,
  by_default_allow, by_default_block, Builtins, in_scope, all_match, bypasses, by_default,
  bypass_decision, rule_decision, evaluate_rules, evaluate_guardrails,
}

-- The four tests of the loop in a row, where they pass a rule over and where they do not.
skipped :
    {A : Type 0} (a b c d e : Bool) (rest bypass other : A)
    → (a && b && (c || (d && e))) ≡ false
    → (if not a
        then rest
        else (if not b
            then rest
            else (if c then bypass else (if not d then rest else (if not e then rest else other)))))
      ≡ rest
skipped a b c d e rest bypass other h = ground arith

taken :
    {A : Type 0} (a b c d e : Bool) (rest bypass other : A)
    → (a && b && (c || (d && e))) ≡ true
    → (if not a
        then rest
        else (if not b
            then rest
            else (if c then bypass else (if not d then rest else (if not e then rest else other)))))
      ≡ (if c then bypass else other)
taken a b c d e rest bypass other h = ground arith

module _ {N B : Type 0} (numbers : Numbers N) (builtins : Builtins N B)
    (regex : Text → Text → Option Bool) where
  -- The clients and the servers of a rule have the call, and the rule is a bypass, or has the tool and
  -- all of its conditions hold.
  abbrev pub applies : GuardrailContext N → GuardrailRule N → Bool
  applies context rule =
      in_scope rule.clients context.client_id
      && in_scope rule.servers context.server_id
      && (bypasses rule
          || (in_scope rule.tools context.tool_name
              && all_match numbers builtins regex rule.conditions context.tool_args))

  abbrev pub NoneApplies : GuardrailContext N → List (GuardrailRule N) → Type 0
  NoneApplies context rules = (r : GuardrailRule N) → Elem r rules → applies context r ≡ false

  -- The rule that decides: the first of the list that applies.
  abbrev pub Decides : GuardrailContext N → GuardrailRule N → List (GuardrailRule N) → Type 0
  Decides context rule rules =
      (before : List (GuardrailRule N)) × (later : List (GuardrailRule N)) × (rules
        ≡ before ++ rule ∷ later)
      × NoneApplies context before
      × (applies context rule ≡ true)

  decision_of : GuardrailRule N → GuardrailContext N → GuardrailDecision
  decision_of rule context =
      if bypasses rule then bypass_decision rule context else rule_decision rule context

  passed_over :
      (context : GuardrailContext N) (rule : GuardrailRule N) (rules : List (GuardrailRule N))
      (d : DefaultAction)
      → applies context rule ≡ false
      → evaluate_rules numbers builtins regex context (rule ∷ rules) d
        ≡ evaluate_rules numbers builtins regex context rules d
  unfolding evaluate_rules
  passed_over context rule rules d h =
      skipped (in_scope rule.clients context.client_id) (in_scope rule.servers context.server_id)
        (bypasses rule) (in_scope rule.tools context.tool_name)
        (all_match numbers builtins regex rule.conditions context.tool_args)
        (evaluate_rules numbers builtins regex context rules d) (bypass_decision rule context)
        (rule_decision rule context) h

  applied :
      (context : GuardrailContext N) (rule : GuardrailRule N) (rules : List (GuardrailRule N))
      (d : DefaultAction)
      → applies context rule ≡ true
      → evaluate_rules numbers builtins regex context (rule ∷ rules) d ≡ decision_of rule context
  unfolding evaluate_rules decision_of
  applied context rule rules d h =
      taken (in_scope rule.clients context.client_id) (in_scope rule.servers context.server_id)
        (bypasses rule) (in_scope rule.tools context.tool_name)
        (all_match numbers builtins regex rule.conditions context.tool_args)
        (evaluate_rules numbers builtins regex context rules d) (bypass_decision rule context)
        (rule_decision rule context) h

  first :
      (context : GuardrailContext N) (rules : List (GuardrailRule N)) (d : DefaultAction)
      → (NoneApplies context rules
          × (evaluate_rules numbers builtins regex context rules d ≡ by_default d))
        ⊎ ((rule : GuardrailRule N) × Decides context rule rules
            × (evaluate_rules numbers builtins regex context rules d ≡ decision_of rule context))
  unfolding evaluate_rules
  first context [] d = inl (λ r m. absurd m, refl)
  first context (r ∷ rs) d = elim (Bool-cases (applies context r)) [
    | inl hit ↦ inr (r, ([], rs, refl, λ q m. absurd m, hit), applied context r rs d hit)
    | inr miss ↦ elim (first context rs d) [
      | inl (none_applies, e) ↦ inl (
        λ q m. elim m [ inl same ↦ cc (same, miss) | inr later ↦ none_applies q later ],
        passed_over context r rs d miss ∙ e,
      )
      | inr (rule, (before, later, split, others, hit), e) ↦ inr (
        rule,
        (
          r ∷ before,
          later,
          ap (λ l. r ∷ l) split,
          λ q m. elim m [ inl same ↦ cc (same, miss) | inr there ↦ others q there ],
          hit,
        ),
        passed_over context r rs d miss ∙ e,
      )
    ]
  ]

  none_applies-evaluate :
      (context : GuardrailContext N) (rules : List (GuardrailRule N)) (d : DefaultAction)
      → NoneApplies context rules
      → evaluate_rules numbers builtins regex context rules d ≡ by_default d
  unfolding evaluate_rules
  none_applies-evaluate context [] d h = refl
  none_applies-evaluate context (r ∷ rs) d h =
      passed_over context r rs d (h r (inl refl))
      ∙ none_applies-evaluate context rs d (λ q m. h q (inr m))

  decides-evaluate :
      (context : GuardrailContext N) (before : List (GuardrailRule N)) (rule : GuardrailRule N)
      (later : List (GuardrailRule N)) (d : DefaultAction)
      → NoneApplies context before
      → applies context rule ≡ true
      → evaluate_rules numbers builtins regex context (before ++ rule ∷ later) d
        ≡ decision_of rule context
  decides-evaluate context [] rule later d h e = applied context rule later d e
  decides-evaluate context (r ∷ before) rule later d h e =
      passed_over context r (before ++ rule ∷ later) d (h r (inl refl))
      ∙ decides-evaluate context before rule later d (λ q m. h q (inr m)) e

  decision-block :
      (rule : GuardrailRule N) (context : GuardrailContext N)
      → ((decision_of rule context).action ≡ act block)
        ↔ ((bypasses rule ≡ false) × (rule.action ≡ block))
  unfolding decision_of bypass_decision rule_decision
  decision-block rule context = elim (Bool-cases (bypasses rule)) [
    | inl b ↦ (λ h. ground arith, λ h. ground arith)
    | inr b ↦ (λ h. ground arith, λ h. ground arith)
  ]

default-block : (d : DefaultAction) → ((by_default d).action ≡ act block) ↔ (d ≡ by_default_block)
unfolding by_default
default-block by_default_allow = (λ h. ground arith, λ h. ground arith)
default-block by_default_block = (λ h. refl, λ h. refl)

-- A call is blocked exactly when the first rule that applies to it is no bypass and has the action
-- `block`, or no rule applies and the default is to block.
pub evaluate_guardrails_iff :
    {N B : Type 0} (numbers : Numbers N) (builtins : Builtins N B)
    (regex : Text → Text → Option Bool) (context : GuardrailContext N) (config : GuardrailsConfig N)
    → ((evaluate_guardrails numbers builtins regex context config).action ≡ act block) ↔ (
        (NoneApplies numbers builtins regex context config.rules
          × (config.default_action ≡ by_default_block))
        ⊎ ((rule : GuardrailRule N) × Decides numbers builtins regex context rule config.rules
            × (bypasses rule ≡ false)
            × (rule.action ≡ block)))
unfolding evaluate_guardrails
evaluate_guardrails_iff numbers builtins regex context config = (
  λ h. elim (first numbers builtins regex context config.rules config.default_action) [
    | inl (none_applies, e) ↦
        inl (none_applies, (default-block config.default_action).0 (cc (e, h)))
    | inr (rule, d, e) ↦
        let (kept, blocks) = (decision-block numbers builtins regex rule context).0 (cc (e, h)) in
        inr (rule, d, kept, blocks)
  ],
  λ h. elim h [
    | inl (none_applies, e) ↦
        ap GuardrailDecision.action (
          none_applies-evaluate numbers builtins regex context config.rules config.default_action
            none_applies)
        ∙ (default-block config.default_action).1 e
    | inr (rule, (before, later, split, others, hit), kept, blocks) ↦ cc (
      split,
      decides-evaluate numbers builtins regex context before rule later config.default_action others
          hit,
      (decision-block numbers builtins regex rule context).1 (kept, blocks),
    )
  ],
)
