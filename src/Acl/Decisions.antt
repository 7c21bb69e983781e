-- ===== src/Acl/Decisions.antt =====
-- When the access control allows a call.
use mcp_conduit.Base.{
  ◌≡◌, ◌≢◌, ◌↔◌, ◌⊎◌, refl, Bool, true, false, List, [], ◌∷◌, ◌++◌, any, arith, inl, inr,
  Bool-cases, ap, ◌∙◌, sym, Elem,
}
use mcp_conduit.Base.Text.{Text}
use mcp_conduit.Acl.{
  AclPolicy, AclRule, DefaultAction, by_default_allow, by_default_deny, client_matches_policy,
  rule_matches, rules, decide, by_default, evaluate_acl,
}

any-Elem :
    (p : AclRule → Bool) (rs : List AclRule)
    → any p rs ≡ true
    → (r : AclRule) × Elem r rs × (p r ≡ true)
any-Elem p [] h = ground arith
any-Elem p (r ∷ rs) h = elim (Bool-cases (p r)) [
  | inl yes_r ↦ (r, inl refl, yes_r)
  | inr no_r ↦ let (q, m, e) = any-Elem p rs (ground arith) in (q, inr m, e)
]

Elem-any :
    (p : AclRule → Bool) (rs : List AclRule) (r : AclRule)
    → Elem r rs
    → p r ≡ true
    → any p rs ≡ true
Elem-any p [] r m h = absurd m
Elem-any p (q ∷ rs) r (inl here) h = ground arith
Elem-any p (q ∷ rs) r (inr later) h = ground (arith, Elem-any p rs r later h)

-- What a policy grants: some rule of `allow` matches, and none of `deny`.
abbrev pub Grants : Text → Text → AclPolicy → Type 0
Grants server tool policy =
    ((rule : AclRule) → Elem rule (rules policy.deny) → rule_matches server tool rule ≡ false)
    × ((rule : AclRule) × Elem rule (rules policy.allow) × (rule_matches server tool rule ≡ true))

true_not_false : true ≢ false
true_not_false e = ground arith

decide_iff :
    (server tool : Text) (policy : AclPolicy)
    → ((decide server tool policy).allowed ≡ true) ↔ Grants server tool policy
unfolding decide
decide_iff server tool policy = (
  λ h. (
    λ rule m. elim (Bool-cases (rule_matches server tool rule)) [
      | inl hit ↦
          ground (arith, Elem-any (rule_matches server tool) (rules policy.deny) rule m hit, h)
      | inr miss ↦ miss
    ],
    any-Elem (rule_matches server tool) (rules policy.allow) (ground (arith, h)),
  ),
  λ (free, (rule, m, hit)). elim (Bool-cases (any (rule_matches server tool) (rules policy.deny))) [
    | inl denied ↦
        let (r, there, e) = any-Elem (rule_matches server tool) (rules policy.deny) denied in
        absurd (true_not_false (sym e ∙ free r there))
    | inr undenied ↦
        ground
          (arith, Elem-any (rule_matches server tool) (rules policy.allow) rule m hit, undenied)
  ],
)

-- The policy that decides: the first of the list that has the client.
abbrev pub Decides : Text → AclPolicy → List AclPolicy → Type 0
Decides client policy policies =
    (before : List AclPolicy) × (later : List AclPolicy) × (policies ≡ before ++ policy ∷ later)
    × ((p : AclPolicy) → Elem p before → client_matches_policy client p.clients ≡ false)
    × (client_matches_policy client policy.clients ≡ true)

abbrev pub Unknown : Text → List AclPolicy → Type 0
Unknown client policies =
    (p : AclPolicy) → Elem p policies → client_matches_policy client p.clients ≡ false

-- The first policy of a client decides.
first :
    (client server tool : Text) (policies : List AclPolicy) (action : DefaultAction)
    → (Unknown client policies
        × (evaluate_acl client server tool policies action ≡ by_default action))
      ⊎ ((policy : AclPolicy) × Decides client policy policies
          × (evaluate_acl client server tool policies action ≡ decide server tool policy))
unfolding evaluate_acl
first client server tool [] action = inl (λ p m. absurd m, refl)
first client server tool (p ∷ ps) action =
    elim (Bool-cases (client_matches_policy client p.clients)) [
      | inl has ↦ inr (p, ([], ps, refl, λ q m. absurd m, has), ground arith)
      | inr lacks ↦ elim (first client server tool ps action) [
        | inl (unknown, e) ↦ inl (
          λ q m. elim m [ inl same ↦ cc (same, lacks) | inr later ↦ unknown q later ],
          ground arith,
        )
        | inr (policy, (before, later, split, others, has), e) ↦ inr (
          policy,
          (
            p ∷ before,
            later,
            ap (λ l. p ∷ l) split,
            λ q m. elim m [ inl same ↦ cc (same, lacks) | inr later ↦ others q later ],
            has,
          ),
          ground arith,
        )
      ]
    ]

unknown-evaluate :
    (client server tool : Text) (policies : List AclPolicy) (action : DefaultAction)
    → Unknown client policies
    → evaluate_acl client server tool policies action ≡ by_default action
unfolding evaluate_acl
unknown-evaluate client server tool [] action h = refl
unknown-evaluate client server tool (p ∷ ps) action h =
    ground
      (arith, h p (inl refl), unknown-evaluate client server tool ps action (λ q m. h q (inr m)))

decides-evaluate :
    (client server tool : Text) (before : List AclPolicy) (policy : AclPolicy)
    (later : List AclPolicy) (action : DefaultAction)
    → Unknown client before
    → client_matches_policy client policy.clients ≡ true
    → evaluate_acl client server tool (before ++ policy ∷ later) action ≡ decide server tool policy
unfolding evaluate_acl
decides-evaluate client server tool [] policy later action h e = ground arith
decides-evaluate client server tool (p ∷ before) policy later action h e = ground (
  arith,
  h p (inl refl),
  decides-evaluate client server tool before policy later action (λ q m. h q (inr m)) e,
)

default-allow :
    (action : DefaultAction) → (by_default action).allowed ≡ true → action ≡ by_default_allow
unfolding by_default
default-allow by_default_allow h = refl
default-allow by_default_deny h = ground arith

default-allows : (by_default by_default_allow).allowed ≡ true
unfolding by_default
default-allows = refl

-- A call is allowed exactly when the first policy that has the client grants it, by a matching rule of
-- `allow` and no matching rule of `deny`, or no policy has the client and the default is to allow.
pub evaluate_acl_iff :
    (client server tool : Text) (policies : List AclPolicy) (action : DefaultAction)
    → ((evaluate_acl client server tool policies action).allowed ≡ true) ↔ (
        (Unknown client policies × (action ≡ by_default_allow))
        ⊎ ((policy : AclPolicy) × Decides client policy policies × Grants server tool policy))
evaluate_acl_iff client server tool policies action = (
  λ h. elim (first client server tool policies action) [
    | inl (unknown, e) ↦ inl (unknown, default-allow action (cc (e, h)))
    | inr (policy, d, e) ↦ inr (policy, d, (decide_iff server tool policy).0 (cc (e, h)))
  ],
  λ h. elim h [
    | inl (unknown, e) ↦
        cc (unknown-evaluate client server tool policies action unknown, e, default-allows)
    | inr (policy, (before, later, split, others, has), g) ↦ cc (
      split,
      decides-evaluate client server tool before policy later action others has,
      (decide_iff server tool policy).1 g,
    )
  ],
)
