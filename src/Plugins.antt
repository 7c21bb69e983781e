-- ===== src/Plugins.antt =====
-- The registry of plugins of src/plugins/registry.ts. `X` is the type of the contexts, which callbacks may
-- change, and `R` that of the responses. What is printed of a failed callback is kept as the names of the
-- plugins that failed.
pub mod Isolation
pub mod Order
mod Tests
use mcp_conduit.Base.{ℕ, Bool, List, [], ◌∷◌, ◌++◌, map, length, Option, none, some}
use mcp_conduit.Base.JsMap
use mcp_conduit.Base.Text.{Text, text_dec}

-- How a callback ends: with a result, which may have a response, or by throwing.
pub data Ending (R : Type 0) : Type 0 where
  returned : Option R → Ending R
  thrown : Ending R

abbrev pub HookCallback : Type 0 → Type 0 → Type 0
HookCallback X R = X → X × Ending R

pub record RegisteredHook (X R : Type 0) : Type 0 where
  pub plugin_name : Text
  pub callback : HookCallback X R

-- A plugin with its hooks; a missing callback is none of them.
pub record ConduitPlugin (X R : Type 0) : Type 0 where
  pub name : Text
  pub hooks : List (Text × Option (HookCallback X R))

pub record PluginRegistry (X R : Type 0) : Type 0 where
  pub hooks : List (Text × List (RegisteredHook X R))
  pub plugins : List (ConduitPlugin X R)

-- What running the hooks leaves: the context, the response that cut the request short, and who failed.
pub record HookRun (X R : Type 0) : Type 0 where
  pub context : X
  pub response : Option R
  pub failed : List Text

module _ {X R : Type 0} where
  abbrev pub new_registry : PluginRegistry X R
  new_registry = record { hooks = []; plugins = [] }

  abbrev pub or_empty_list : Option (List (RegisteredHook X R)) → List (RegisteredHook X R)
  or_empty_list none = []
  or_empty_list (some hs) = hs

  abbrev pub the_hook : Text → HookCallback X R → RegisteredHook X R
  the_hook plugin callback = record { plugin_name = plugin; callback = callback }

  -- The loop over the hooks of a plugin.
  unfoldable pub push_hooks :
      Text
      → List (Text × Option (HookCallback X R))
      → List (Text × List (RegisteredHook X R))
      → List (Text × List (RegisteredHook X R))
  push_hooks plugin [] registered = registered
  push_hooks plugin ((name, none) ∷ hooks) registered = push_hooks plugin hooks registered
  push_hooks plugin ((name, some callback) ∷ hooks) registered = push_hooks plugin hooks (
      JsMap.put text_dec name
        (or_empty_list (JsMap.get text_dec name registered) ++ (the_hook plugin callback ∷ []))
        registered)

  unfoldable pub register : ConduitPlugin X R → PluginRegistry X R → PluginRegistry X R
  unfolding push_hooks
  register plugin registry = record {
    hooks = push_hooks plugin.name plugin.hooks registry.hooks;
    plugins = registry.plugins ++ (plugin ∷ []);
  }

  -- One callback: a response ends the loop, an error is printed and passed over.
  after_callback : Text → X × Ending R → (X → HookRun X R) → HookRun X R
  after_callback plugin (ctx, returned (some response)) rest = record {
    context = ctx;
    response = some response;
    failed = [];
  }
  after_callback plugin (ctx, returned none) rest = rest ctx
  after_callback plugin (ctx, thrown) rest = record (rest ctx) {
    failed = plugin ∷ (rest ctx).failed;
  }

  unfoldable pub run_callbacks : List (RegisteredHook X R) → X → HookRun X R
  unfolding after_callback
  run_callbacks [] ctx = record { context = ctx; response = none; failed = [] }
  run_callbacks (hook ∷ hooks) ctx =
      after_callback hook.plugin_name (hook.callback ctx) (run_callbacks hooks)

  unfoldable pub run_hook : PluginRegistry X R → Text → X → HookRun X R
  run_hook registry name ctx =
      run_callbacks (or_empty_list (JsMap.get text_dec name registry.hooks)) ctx

  abbrev pub size : PluginRegistry X R → ℕ
  size registry = length registry.plugins

  abbrev pub get_plugin_names : PluginRegistry X R → List Text
  get_plugin_names registry = map ConduitPlugin.name registry.plugins
