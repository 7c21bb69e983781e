-- ===== src/Pipeline/Monitor.antt =====
-- What the history of a tool call must look like, and the steps that only add harmless events.
use mcp_conduit.Acl.{evaluate_acl}
use mcp_conduit.CachePolicy.{decide_cache_policy}
use mcp_conduit.Base.{
  ◌⊎◌, ◌≡◌, ◌≢◌, inr, refl, Bool, true, false, not, [], ◌∷◌, some, Elem, arith, if◌then◌else◌,
}
use mcp_conduit.Base.Text.{Text}
use mcp_conduit.Guardrails.{GuardrailsConfig, act, block, require_approval}
use mcp_conduit.JsonRpc.{JsonRpcMessage, extract_tool_args}
use mcp_conduit.Pipeline.{
  Gateway, Step, after, Event, History, Target, Outcome, next, answer, raise, AclConfig, CacheEntry,
  CoreResult, Thrown, ServerConfig, approval_checked, quota_consumed, client_limits_consumed,
  server_limits_consumed, l1_read, l2_read, l1_written, l2_written, forwarded, effect_deny,
  effect_require_approval,
}
use mcp_conduit.Pipeline.Forwarding.{cache_key, find_config}
use mcp_conduit.Pipeline.Approvals.{Caller}
use mcp_conduit.Pipeline.Gates.{inspect, policy_of}
use mcp_conduit.Pipeline.Messages.{build_forward_message}
use mcp_conduit.Pipeline.ToolCall.{is_tool_error}

module _ {N K C : Type 0} where
  -- No call of an upstream server, no entry found in a cache, and nothing stored.
  abbrev pub is_harmless : Event N K C → Bool
  is_harmless (forwarded c s m x) = false
  is_harmless (l1_written k e) = false
  is_harmless (l2_written k e n) = false
  is_harmless (l1_read k found) = not found
  is_harmless (l2_read k found) = not found
  is_harmless e = true

  -- No call of an upstream server and no entry found.
  abbrev pub is_quiet : Event N K C → Bool
  is_quiet (forwarded c s m x) = false
  is_quiet (l1_read k found) = not found
  is_quiet (l2_read k found) = not found
  is_quiet e = true

  abbrev pub Quiet : History N K C → Type 0
  Quiet [] = Unit
  Quiet (e ∷ h) = (is_quiet e ≡ true) × Quiet h

  -- The second history is the first with harmless events added.
  pub data Later : History N K C → History N K C → Type 0 where
    now : {h : History N K C} → Later h h
    then_event :
        {h h' : History N K C} (e : Event N K C)
        → is_harmless e ≡ true
        → Later h h'
        → Later h (e ∷ h')

  pub Later-trans : {h h' h'' : History N K C} → Later h h' → Later h' h'' → Later h h''
  Later-trans r now = r
  Later-trans r (then_event e p s) = then_event e p (Later-trans r s)

  harmless-quiet : (e : Event N K C) → is_harmless e ≡ true → is_quiet e ≡ true
  harmless-quiet (forwarded c s m x) h = ground arith
  harmless-quiet (l1_written k e) h = ground arith
  harmless-quiet (l2_written k e n) h = ground arith
  harmless-quiet (l1_read k found) h = h
  harmless-quiet (l2_read k found) h = h
  harmless-quiet e h = refl

  pub Later-Quiet : {h h' : History N K C} → Later h h' → Quiet h → Quiet h'
  Later-Quiet now q = q
  Later-Quiet (then_event e p r) q = (harmless-quiet e p, Later-Quiet r q)

  pub Later-Elem : {h h' : History N K C} (e : Event N K C) → Later h h' → Elem e h → Elem e h'
  Later-Elem e now m = m
  Later-Elem e (then_event d p r) m = inr (Later-Elem e r m)

  -- How a check ends: with harmless events, and with `Q` if it goes on.
  pub data Ends {A : Type 0} (Q : A → History N K C → Type 0) (h : History N K C)
      : Outcome N A × History N K C → Type 0 where
    passes : {a : A} {h' : History N K C} → Later h h' → Q a h' → Ends Q h (next a, h')
    answers : {r : CoreResult N} {h' : History N K C} → Later h h' → Ends Q h (answer r, h')
    throws : {e : Thrown N} {h' : History N K C} → Later h h' → Ends Q h (raise e, h')

  abbrev pub Passes : {A : Type 0} → (A → History N K C → Type 0) → Step N K C A → Type 0
  Passes Q m = (h : History N K C) → Ends Q h (m h)

  abbrev pub Anything : {A : Type 0} → A → History N K C → Type 0
  Anything a h = Unit

  from_earlier :
      {A : Type 0} {Q : A → History N K C → Type 0} {h h' : History N K C}
      {o : Outcome N A × History N K C}
      → Later h h'
      → Ends Q h' o
      → Ends Q h o
  from_earlier r (passes s q) = passes (Later-trans r s) q
  from_earlier r (answers s) = answers (Later-trans r s)
  from_earlier r (throws s) = throws (Later-trans r s)

  -- One check after another.
  pub bind-Ends :
      {A B : Type 0} {Q : A → History N K C → Type 0} {R : B → History N K C → Type 0}
      {h : History N K C} {o : Outcome N A × History N K C} (f : A → Step N K C B)
      → Ends Q h o
      → ((a : A) (h' : History N K C) → Later h h' → Q a h' → Ends R h' (f a h'))
      → Ends R h (after o f)
  bind-Ends f (passes {a} {h'} r q) k = from_earlier r (k a h' r q)
  bind-Ends f (answers r) k = answers r
  bind-Ends f (throws r) k = throws r

  pub Ends-Later :
      {A : Type 0} {Q : A → History N K C → Type 0} {h : History N K C}
      {o : Outcome N A × History N K C}
      → Ends Q h o
      → Later h o.1
  Ends-Later (passes r q) = r
  Ends-Later (answers r) = r
  Ends-Later (throws r) = r

  pub weaken-Ends :
      {A : Type 0} {Q R : A → History N K C → Type 0} {h : History N K C}
      {o : Outcome N A × History N K C}
      → Ends Q h o
      → ((a : A) (h' : History N K C) → Later h h' → Q a h' → R a h')
      → Ends R h o
  weaken-Ends (passes {a} {h'} r q) k = passes r (k a h' r q)
  weaken-Ends (answers r) k = answers r
  weaken-Ends (throws r) k = throws r

  pub if-Ends :
      {A : Type 0} {Q : A → History N K C → Type 0} (b : Bool) (x y : Step N K C A)
      (h : History N K C)
      → (b ≡ true → Ends Q h (x h))
      → (b ≡ false → Ends Q h (y h))
      → Ends Q h ((if b then x else y) h)
  if-Ends true x y h p q = p refl
  if-Ends false x y h p q = q refl

  -- An event and then a check.
  pub emit-Ends :
      {A : Type 0} {Q : A → History N K C → Type 0} {h : History N K C}
      {o : Outcome N A × History N K C} (e : Event N K C)
      → is_harmless e ≡ true
      → Ends Q (e ∷ h) o
      → Ends Q h o
  emit-Ends e p r = from_earlier (then_event e p now) r

module _ {N B K C : Type 0} (g : Gateway N B K C) (caller : Caller) where
  -- The access control allows the call, where it is enabled.
  abbrev pub AclAllows : Target N → Type 0
  AclAllows t =
      (acl : AclConfig)
      → g.config.acl ≡ some acl
      → acl.enabled ≡ true
      → (evaluate_acl caller.client_id t.server_id t.tool_name acl.policies
          acl.default_action).allowed
        ≡ true

  -- The workspace's policy does not deny the call, an approval that it requires was given, and the quota
  -- was granted.
  abbrev pub GovernanceAllows : Target N → History N K C → Type 0
  GovernanceAllows t h =
      g.governance.is_enabled ≡ true
      → ((policy_of g caller t).effect ≢ effect_deny)
        × ((policy_of g caller t).effect ≡ effect_require_approval
            → Elem (approval_checked t true) h)
        × Elem (quota_consumed true) h

  -- The guardrails do not block the call, and an approval that they require was given.
  abbrev pub GuardrailsAllow : Target N → History N K C → Type 0
  GuardrailsAllow t h =
      (guardrails : GuardrailsConfig N)
      → g.config.guardrails ≡ some guardrails
      → guardrails.enabled ≡ true
      → ((inspect g caller t guardrails).action ≢ act block)
        × ((inspect g caller t guardrails).action ≡ act require_approval
            → Elem (approval_checked t true) h)

  abbrev pub ClientLimitsAllow : History N K C → Type 0
  ClientLimitsAllow h =
      g.config.limits_enabled ≡ true → Elem (client_limits_consumed caller.client_id true) h

  abbrev pub ServerLimitsAllow : Target N → History N K C → Type 0
  ServerLimitsAllow t h =
      g.config.limits_enabled ≡ true
      → Elem (server_limits_consumed caller.client_id t.server_id t.tool_name true) h

  -- Every check has let the call pass.
  abbrev pub Permits : Target N → History N K C → Type 0
  Permits t h =
      AclAllows t
      × GovernanceAllows t h
      × GuardrailsAllow t h
      × ClientLimitsAllow h
      × ServerLimitsAllow t h

  module _ (message : JsonRpcMessage N) where
    abbrev pub the_target : Text → Text → Target N
    the_target server_id tool_name = record {
      server_id = server_id;
      tool_name = tool_name;
      args = extract_tool_args message;
    }

    -- A key of the call for a tool of a configured server: of the caller and the call's arguments, without
    -- those that the server's cache policy for the tool leaves out.
    abbrev pub IsKeyOf : K → Text → Text → Type 0
    IsKeyOf key server_id tool_name =
        (server : ServerConfig) × (h : History N K C) × (find_config g.config.servers server_id
          ≡ some server)
        × (key
            ≡ cache_key g caller (the_target server_id tool_name)
                (decide_cache_policy g.inherited tool_name (g.annotations server_id tool_name h)
                  server.cache).ignore_args)

    -- What may be stored: no error of a tool, under the key of the call.
    abbrev pub Storable : K → CacheEntry N → Type 0
    Storable key entry =
        (is_tool_error entry.result ≡ false) × IsKeyOf key entry.server_id entry.tool_name

    -- What the second cache has under a key of the call.
    abbrev pub Copied : K → CacheEntry N → Type 0
    Copied key entry =
        ((server_id : Text) × (tool_name : Text) × IsKeyOf key server_id tool_name)
        × ((h : History N K C) × (g.l2_get key h ≡ some entry))

    -- What must hold when an event happens.
    abbrev pub May : Event N K C → History N K C → Type 0
    May (forwarded c server_id m x) h =
        (tool_name : Text) × (m ≡ build_forward_message g.numbers message tool_name)
        × Permits (the_target server_id tool_name) h
        × Quiet h
    May (l1_written key entry) h = Storable key entry ⊎ Copied key entry
    May (l2_written key entry n) h = Storable key entry
    May e h = Unit

    -- Every event of the history could happen when it did.
    abbrev pub Lawful : History N K C → Type 0
    Lawful [] = Unit
    Lawful (e ∷ h) = May e h × Lawful h

    harmless-May : (e : Event N K C) (h : History N K C) → is_harmless e ≡ true → May e h
    harmless-May (forwarded c s m x) h p = ground arith
    harmless-May (l1_written k e) h p = ground arith
    harmless-May (l2_written k e n) h p = ground arith
    harmless-May e h p = tt

    pub Later-Lawful : {h h' : History N K C} → Later h h' → Lawful h → Lawful h'
    Later-Lawful now l = l
    Later-Lawful (then_event {h'} e p r) l = (harmless-May e h' p, Later-Lawful r l)

-- A step that keeps a property `R` of the history, and brings `P` about if it goes on.
module _ {N K C : Type 0} where
  pub data Keeps {A : Type 0} (R : History N K C → Type 0) (P : A → History N K C → Type 0)
      : Outcome N A × History N K C → Type 0 where
    goes_on : {a : A} {h : History N K C} → R h → P a h → Keeps R P (next a, h)
    stops : {r : CoreResult N} {h : History N K C} → R h → Keeps R P (answer r, h)
    fails : {e : Thrown N} {h : History N K C} → R h → Keeps R P (raise e, h)

  pub bind-Keeps :
      {A D : Type 0} {R : History N K C → Type 0} {P : A → History N K C → Type 0}
      {Q : D → History N K C → Type 0} {o : Outcome N A × History N K C} (f : A → Step N K C D)
      → Keeps R P o
      → ((a : A) (h : History N K C) → R h → P a h → Keeps R Q (f a h))
      → Keeps R Q (after o f)
  bind-Keeps f (goes_on {a} {h} r p) k = k a h r p
  bind-Keeps f (stops r) k = stops r
  bind-Keeps f (fails r) k = fails r

  pub if-Keeps :
      {A : Type 0} {R : History N K C → Type 0} {P : A → History N K C → Type 0} (b : Bool)
      (x y : Step N K C A) (h : History N K C)
      → (b ≡ true → Keeps R P (x h))
      → (b ≡ false → Keeps R P (y h))
      → Keeps R P ((if b then x else y) h)
  if-Keeps true x y h p q = p refl
  if-Keeps false x y h p q = q refl

  pub Keeps-end :
      {A : Type 0} {R : History N K C → Type 0} {P : A → History N K C → Type 0}
      {o : Outcome N A × History N K C}
      → Keeps R P o
      → R o.1
  Keeps-end (goes_on r p) = r
  Keeps-end (stops r) = r
  Keeps-end (fails r) = r

-- Harmless steps keep a history lawful.
pub Ends-Keeps :
    {N B K C A : Type 0} (g : Gateway N B K C) (caller : Caller) (message : JsonRpcMessage N)
    {Q : A → History N K C → Type 0} {h : History N K C} {o : Outcome N A × History N K C}
    → Ends Q h o
    → Lawful g caller message h
    → Keeps (Lawful g caller message) (λ a h'. Later h h' × Q a h') o
Ends-Keeps g caller message (passes r q) l = goes_on (Later-Lawful g caller message r l) (r, q)
Ends-Keeps g caller message (answers r) l = stops (Later-Lawful g caller message r l)
Ends-Keeps g caller message (throws r) l = fails (Later-Lawful g caller message r l)
