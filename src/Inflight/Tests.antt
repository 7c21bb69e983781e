-- ===== src/Inflight/Tests.antt =====
-- Runs of the tracker of requests in flight.
use mcp_conduit.Base.{◌≡◌, ◌↔◌, refl, true, false, List, [], ◌∷◌, some, ℕ_discrete}
use mcp_conduit.Base.JsMap
use mcp_conduit.Base.Text.{text_dec, codes}
use mcp_conduit.Inflight.{
  Event, asks, settles, awaits_shared, threw, create, run, deduplicate, has, size,
  get_inflight_snapshot,
}
use mcp_conduit.Inflight.SingleFlight.{deduplicate-shares}

abbrev some_events : List Event
some_events =
    asks (codes "a") false 10
    ∷ asks (codes "b") false 11
    ∷ asks (codes "a") true 12
    ∷ settles 1
    ∷ asks (codes "b") false 13
    ∷ []

snapshot_test :
    get_inflight_snapshot (run create some_events)
    ≡ ((codes "a", (10, 1)) ∷ (codes "b", (13, 0)) ∷ [])
unfolding get_inflight_snapshot run JsMap.get create JsMap.put text_dec ℕ_discrete JsMap.delete
snapshot_test = refl

has_test : has (run create (asks (codes "a") false 10 ∷ settles 0 ∷ [])) (codes "a") ≡ false
unfolding has run JsMap.has create JsMap.put ℕ_discrete JsMap.delete text_dec
has_test = refl

size_test : size (run create some_events) ≡ 2
unfolding size run JsMap.get create JsMap.put text_dec ℕ_discrete JsMap.delete
size_test = refl

throws_test : (deduplicate create (codes "a") true 10).1 ≡ threw
unfolding deduplicate JsMap.get create
throws_test = refl

deduplicate-shares_example :
    ((deduplicate (run create some_events) (codes "b") false 14).1 ≡ awaits_shared 2)
    ↔ (JsMap.get ℕ_discrete 2 (run create some_events).running ≡ some (codes "b"))
deduplicate-shares_example = deduplicate-shares some_events (codes "b") false 14 2
