-- ===== src/Plugins/Isolation.antt =====
-- The callbacks that the registry of src/plugins/registry.ts has for a hook, and callbacks that throw.
use mcp_conduit.Base.{◌≡◌, refl, sym, ap, ◌∙◌, subst, ite, List, [], ◌∷◌, ◌++◌, Option, none, some}
use mcp_conduit.Base.JsMap
use mcp_conduit.Base.Text.{Text, text_dec}
use mcp_conduit.Plugins.{
  Ending, returned, thrown, HookCallback, RegisteredHook, ConduitPlugin, PluginRegistry, HookRun,
  new_registry, or_empty_list, push_hooks, register, run_callbacks, run_hook, after_callback,
  the_hook,
}

module _ {X R : Type 0} where
  -- The callbacks of a plugin for a hook.
  abbrev pub callbacks_for :
      Text → Text → List (Text × Option (HookCallback X R)) → List (RegisteredHook X R)
  callbacks_for name plugin [] = []
  callbacks_for name plugin ((k, none) ∷ hooks) = callbacks_for name plugin hooks
  callbacks_for name plugin ((k, some callback) ∷ hooks) =
      ite (text_dec name k) (the_hook plugin callback ∷ callbacks_for name plugin hooks)
        (callbacks_for name plugin hooks)

  abbrev pub all_callbacks : Text → List (ConduitPlugin X R) → List (RegisteredHook X R)
  all_callbacks name [] = []
  all_callbacks name (p ∷ ps) = callbacks_for name p.name p.hooks ++ all_callbacks name ps

  abbrev pub register_all : List (ConduitPlugin X R) → PluginRegistry X R → PluginRegistry X R
  register_all [] registry = registry
  register_all (p ∷ ps) registry = register_all ps (register p registry)

  append_nil : (xs : List (RegisteredHook X R)) → xs ++ [] ≡ xs
  append_nil [] = refl
  append_nil (x ∷ xs) = ap (λ l. x ∷ l) (append_nil xs)

  append_assoc : (xs ys zs : List (RegisteredHook X R)) → (xs ++ ys) ++ zs ≡ xs ++ (ys ++ zs)
  append_assoc [] ys zs = refl
  append_assoc (x ∷ xs) ys zs = ap (λ l. x ∷ l) (append_assoc xs ys zs)

  pushed :
      (name k : Text) (d : Dec (name ≡ k)) (hook : RegisteredHook X R)
      (registered : List (Text × List (RegisteredHook X R))) (later : List (RegisteredHook X R))
      → or_empty_list (
            ite d
              (some (or_empty_list (JsMap.get text_dec k registered) ++ (hook ∷ [])))
              (JsMap.get text_dec name registered))
          ++ later
        ≡ or_empty_list (JsMap.get text_dec name registered) ++ ite d (hook ∷ later) later
  pushed name k (yes e) hook registered later =
      append_assoc (or_empty_list (JsMap.get text_dec k registered)) (hook ∷ []) later
      ∙ ap (λ (i : Text). or_empty_list (JsMap.get text_dec i registered) ++ (hook ∷ later)) (sym e)
  pushed name k (no n) hook registered later = refl

  get-push_hooks :
      (name plugin : Text) (hooks : List (Text × Option (HookCallback X R)))
      (registered : List (Text × List (RegisteredHook X R)))
      → or_empty_list (JsMap.get text_dec name (push_hooks plugin hooks registered))
        ≡ or_empty_list (JsMap.get text_dec name registered) ++ callbacks_for name plugin hooks
  unfolding push_hooks
  get-push_hooks name plugin [] registered = sym (append_nil _)
  get-push_hooks name plugin ((k, none) ∷ hooks) registered =
      get-push_hooks name plugin hooks registered
  get-push_hooks name plugin ((k, some callback) ∷ hooks) registered =
      let hook = the_hook plugin callback in
      let value = or_empty_list (JsMap.get text_dec k registered) ++ (hook ∷ []) in
      get-push_hooks name plugin hooks (JsMap.put text_dec k value registered)
      ∙ ap
          (λ (o : Option (List (RegisteredHook X R))).
            or_empty_list o ++ callbacks_for name plugin hooks)
          (JsMap.get-put text_dec name k value registered)
      ∙ pushed name k (text_dec name k) hook registered (callbacks_for name plugin hooks)

  get-register_all :
      (name : Text) (ps : List (ConduitPlugin X R)) (registry : PluginRegistry X R)
      → or_empty_list (JsMap.get text_dec name (register_all ps registry).hooks)
        ≡ or_empty_list (JsMap.get text_dec name registry.hooks) ++ all_callbacks name ps
  unfolding register
  get-register_all name [] registry = sym (append_nil _)
  get-register_all name (p ∷ ps) registry =
      get-register_all name ps (register p registry)
      ∙ ap (λ l. l ++ all_callbacks name ps) (get-push_hooks name p.name p.hooks registry.hooks)
      ∙ append_assoc (or_empty_list (JsMap.get text_dec name registry.hooks))
          (callbacks_for name p.name p.hooks) (all_callbacks name ps)

  -- After plugins are registered, a hook runs their callbacks for it one after the other, in the order of
  -- registration.
  pub run_hook-register :
      (name : Text) (ps : List (ConduitPlugin X R)) (ctx : X)
      → run_hook (register_all ps new_registry) name ctx ≡ run_callbacks (all_callbacks name ps) ctx
  unfolding run_hook JsMap.get
  run_hook-register name ps ctx =
      ap (λ hs. run_callbacks hs ctx) (get-register_all name ps new_registry)

  -- What two runs have in common.
  abbrev pub SameOutcome : HookRun X R → HookRun X R → Type 0
  SameOutcome a b = (a.response ≡ b.response) × (a.context ≡ b.context)

  after_callback-same :
      (plugin : Text) (end : X × Ending R) (f g : X → HookRun X R)
      → ((c : X) → SameOutcome (f c) (g c))
      → SameOutcome (after_callback plugin end f) (after_callback plugin end g)
  unfolding after_callback
  after_callback-same plugin (c, returned (some r)) f g h = (refl, refl)
  after_callback-same plugin (c, returned none) f g h = h c
  after_callback-same plugin (c, thrown) f g h = h c

  -- A callback that throws and leaves the context as it was has no influence on the response and on the
  -- context, wherever it stands among the callbacks.
  run_callbacks-thrown :
      (before after : List (RegisteredHook X R)) (bad : RegisteredHook X R) (ctx : X)
      → ((c : X) → bad.callback c ≡ (c, thrown))
      → SameOutcome
          (run_callbacks (before ++ bad ∷ after) ctx)
          (run_callbacks (before ++ after) ctx)
  unfolding run_callbacks after_callback
  run_callbacks-thrown [] after bad ctx h =
      subst
        (λ (end : X × Ending R).
          SameOutcome (after_callback bad.plugin_name end (run_callbacks after))
            (run_callbacks after ctx))
        (sym (h ctx)) (refl, refl)
  run_callbacks-thrown (hook ∷ before) after bad ctx h =
      after_callback-same hook.plugin_name (hook.callback ctx)
        (run_callbacks (before ++ bad ∷ after)) (run_callbacks (before ++ after))
        (λ c. run_callbacks-thrown before after bad c h)
