-- ===== src/Plugins/Tests.antt =====
-- Two plugins, one of which fails.
use mcp_conduit.Base.{ℕ, suc, ◌≡◌, ◌⊎◌, refl, [], ◌∷◌, some, ℕ_discrete}
use mcp_conduit.Base.JsMap
use mcp_conduit.Base.Text.{Text, text_dec, codes}
use mcp_conduit.Plugins.{
  returned, thrown, RegisteredHook, ConduitPlugin, new_registry, register, push_hooks, run_hook,
  run_callbacks,
}
use mcp_conduit.Plugins.Isolation.{register_all, all_callbacks}
use mcp_conduit.Plugins.Order.{IsPassed, IsAnswered, run_hook-order}

abbrev faulty : ConduitPlugin ℕ Text
faulty = record {
  name = codes "faulty";
  hooks = (codes "after:auth", some (λ c. (c, thrown))) ∷ [];
}

abbrev answering : ConduitPlugin ℕ Text
answering = record {
  name = codes "answering";
  hooks = (codes "after:auth", some (λ c. (suc c, returned (some (codes "done"))))) ∷ [];
}

program : Unit {0}
unfolding run_hook run_callbacks register push_hooks JsMap.get JsMap.put text_dec ℕ_discrete
program = tt

answered :
    (run_hook (register_all (faulty ∷ answering ∷ []) new_registry) (codes "after:auth") 4).response
    ≡ some (codes "done")
unfolding program
answered = refl

run_hook-order_example :
    let callbacks = all_callbacks (codes "after:auth") (faulty ∷ answering ∷ []) in
    let run =
      run_hook (register_all (faulty ∷ answering ∷ []) new_registry) (codes "after:auth") 4 in
    IsPassed callbacks 4 run ⊎ IsAnswered callbacks 4 run
run_hook-order_example = run_hook-order (codes "after:auth") (faulty ∷ answering ∷ []) 4

abbrev failing : RegisteredHook ℕ Text
failing = record { plugin_name = codes "faulty"; callback = λ c. (c, thrown) }
