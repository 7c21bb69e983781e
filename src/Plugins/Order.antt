-- ===== src/Plugins/Order.antt =====
-- The order in which `runHook` of src/plugins/registry.ts runs the callbacks, and where it stops.
use mcp_conduit.Base.{
  ◌≡◌, ◌⊎◌, refl, sym, ap, ◌∙◌, subst, inl, inr, List, [], ◌∷◌, ◌++◌, Option, none, some,
}
use mcp_conduit.Base.Text.{Text}
use mcp_conduit.Plugins.{
  Ending, returned, thrown, RegisteredHook, ConduitPlugin, HookRun, new_registry, run_callbacks,
  run_hook, after_callback,
}
use mcp_conduit.Plugins.Isolation.{register_all, all_callbacks, run_hook-register}

abbrev pub response_of : {R : Type 0} → Ending R → Option R
response_of (returned response) = response
response_of thrown = none

abbrev pub blamed : {R : Type 0} → Text → Ending R → List Text → List Text
blamed plugin (returned response) names = names
blamed plugin thrown names = plugin ∷ names

module _ {X R : Type 0} where
  -- The context that callbacks leave, called one after the other.
  abbrev pub thread : List (RegisteredHook X R) → X → X
  thread [] ctx = ctx
  thread (hook ∷ hooks) ctx = thread hooks (hook.callback ctx).0

  -- None of the callbacks, called one after the other, responds.
  abbrev pub IsSilent : List (RegisteredHook X R) → X → Type 0
  IsSilent [] ctx = Unit
  IsSilent (hook ∷ hooks) ctx =
      (response_of (hook.callback ctx).1 ≡ none) × IsSilent hooks (hook.callback ctx).0

  -- The plugins whose callbacks throw, called one after the other.
  abbrev pub throwers : List (RegisteredHook X R) → X → List Text
  throwers [] ctx = []
  throwers (hook ∷ hooks) ctx =
      blamed hook.plugin_name (hook.callback ctx).1 (throwers hooks (hook.callback ctx).0)

  -- All callbacks are called and none responds.
  abbrev pub IsPassed : List (RegisteredHook X R) → X → HookRun X R → Type 0
  IsPassed hooks ctx run =
      IsSilent hooks ctx
      × (run.response ≡ none)
      × (run.context ≡ thread hooks ctx)
      × (run.failed ≡ throwers hooks ctx)

  -- The callbacks are called up to the first that responds.
  abbrev pub IsAnswered : List (RegisteredHook X R) → X → HookRun X R → Type 0
  IsAnswered hooks ctx run =
      (before : List (RegisteredHook X R)) × (hook : RegisteredHook X R) × (rest : List
        (RegisteredHook X R))
      × (response : R) × (hooks ≡ before ++ hook ∷ rest)
      × IsSilent before ctx
      × (hook.callback (thread before ctx) ≡ (run.context, returned (some response)))
      × (run.response ≡ some response)
      × (run.failed ≡ throwers before ctx)

  Ran : List (RegisteredHook X R) → X → HookRun X R → Type 0
  Ran hooks ctx run = IsPassed hooks ctx run ⊎ IsAnswered hooks ctx run

  -- A callback without a response comes before what the others do.
  passed_over-Ran :
      (hook : RegisteredHook X R) (hooks : List (RegisteredHook X R)) (ctx c : X) (end : Ending R)
      (run : HookRun X R) (failed : List Text)
      → hook.callback ctx ≡ (c, end)
      → response_of end ≡ none
      → failed ≡ blamed hook.plugin_name end run.failed
      → Ran hooks c run
      → Ran (hook ∷ hooks) ctx (record run { failed = failed })
  unfolding Ran
  passed_over-Ran hook hooks ctx c end run failed e quiet names
        (inl (silent, none_left, same, threw)) =
      inl (
        (
          ap (λ x. response_of x.1) e ∙ quiet,
          subst (λ x. IsSilent hooks x) (sym (ap (λ x. x.0) e)) silent,
        ),
        none_left,
        same ∙ ap (λ x. thread hooks x.0) (sym e),
        names
            ∙ ap (blamed hook.plugin_name end) threw
            ∙ ap (λ x. blamed hook.plugin_name x.1 (throwers hooks x.0)) (sym e),
      )
  passed_over-Ran hook hooks ctx c end run failed e quiet names
        (inr (before, last, rest, response, split, silent, at, answer, threw)) =
      inr (
        hook ∷ before,
        last,
        rest,
        response,
        ap (λ l. hook ∷ l) split,
        (
          ap (λ x. response_of x.1) e ∙ quiet,
          subst (λ x. IsSilent before x) (sym (ap (λ x. x.0) e)) silent,
        ),
        ap (λ x. last.callback (thread before x.0)) e ∙ at,
        answer,
        names
            ∙ ap (blamed hook.plugin_name end) threw
            ∙ ap (λ x. blamed hook.plugin_name x.1 (throwers before x.0)) (sym e),
      )

  after_callback-Ran :
      (hook : RegisteredHook X R) (hooks : List (RegisteredHook X R)) (ctx : X) (end : X × Ending R)
      → hook.callback ctx ≡ end
      → ((c : X) → Ran hooks c (run_callbacks hooks c))
      → Ran (hook ∷ hooks) ctx (after_callback hook.plugin_name end (run_callbacks hooks))
  unfolding after_callback Ran
  after_callback-Ran hook hooks ctx (c, returned (some response)) e later =
      inr ([], hook, hooks, response, refl, tt, e, refl, refl)
  after_callback-Ran hook hooks ctx (c, returned none) e later =
      passed_over-Ran hook hooks ctx c (returned none) (run_callbacks hooks c) _ e refl refl
        (later c)
  after_callback-Ran hook hooks ctx (c, thrown) e later =
      passed_over-Ran hook hooks ctx c thrown (run_callbacks hooks c) _ e refl refl (later c)

  run_callbacks-Ran :
      (hooks : List (RegisteredHook X R)) (ctx : X) → Ran hooks ctx (run_callbacks hooks ctx)
  unfolding run_callbacks Ran
  run_callbacks-Ran [] ctx = inl (tt, refl, refl, refl)
  run_callbacks-Ran (hook ∷ hooks) ctx =
      after_callback-Ran hook hooks ctx (hook.callback ctx) refl (run_callbacks-Ran hooks)

  -- After plugins are registered, a hook calls their callbacks for it in the order of registration, each
  -- with the context that the one before has left, also if that one threw. The first that responds
  -- ends the run with its context and its response; if none does, all are called. The plugins that failed
  -- are those of the called callbacks that threw.
  pub run_hook-order :
      (name : Text) (ps : List (ConduitPlugin X R)) (ctx : X)
      → IsPassed (all_callbacks name ps) ctx (run_hook (register_all ps new_registry) name ctx)
        ⊎ IsAnswered (all_callbacks name ps) ctx (run_hook (register_all ps new_registry) name ctx)
  unfolding Ran
  run_hook-order name ps ctx =
      subst (λ run. Ran (all_callbacks name ps) ctx run) (sym (run_hook-register name ps ctx))
        (run_callbacks-Ran (all_callbacks name ps) ctx)
