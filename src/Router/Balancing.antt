-- ===== src/Router/Balancing.antt =====
-- Which replica the router selects.
use mcp_conduit.Base.{
  ℕ, zero, suc, ◌+◌, ◌%◌, ◌≤◌, ◌<◌, ◌≡◌, ◌≢◌, ◌↔◌, ◌⊎◌, inl, inr, refl, ◌∙◌, sym, subst, Bool, true,
  false, List, [], ◌∷◌, Option, none, some, length, get_elem?, arith, Elem, keep,
}
use mcp_conduit.Base.JsMap.{get-put}
use mcp_conduit.Base.Text.{Text, text_dec}
use mcp_conduit.Registry.{
  ServerInfo, find_server, get_healthy_replicas, is_available, available_replicas,
}
use mcp_conduit.Replica.{ReplicaInfo, has_open_breaker}
use mcp_conduit.Router.{
  LoadBalancingStrategy, round_robin, least_connections, ConduitRouter, counter_of, least_of,
  select_among, select_replica,
}

get_elem?-in_range {ℓ} : {A : Type ℓ} (xs : List A) (i : ℕ) → i < length xs → get_elem? xs i ≢ none
get_elem?-in_range [] i h = elim h [ ]
get_elem?-in_range (x ∷ xs) zero h = λ e. cc
get_elem?-in_range (x ∷ xs) (suc i) h = get_elem?-in_range xs i (omega arith)

get_elem?-Elem : {A : Type 0} (xs : List A) (i : ℕ) (x : A) → get_elem? xs i ≡ some x → Elem x xs
get_elem?-Elem [] i x h = cc
get_elem?-Elem (y ∷ xs) zero x h = inl (ground arith)
get_elem?-Elem (y ∷ xs) (suc i) x h = inr (get_elem?-Elem xs i x h)

least_of-Elem :
    (r : ReplicaInfo) (rs : List ReplicaInfo) → (least_of r rs ≡ r) ⊎ Elem (least_of r rs) rs
unfolding least_of
least_of-Elem r [] = inl refl
least_of-Elem r (q ∷ rs) = ground (arith, least_of-Elem r rs, least_of-Elem q rs)

least_of-le :
    (r : ReplicaInfo) (rs : List ReplicaInfo) (q : ReplicaInfo)
    → ((least_of r rs).active_connections ≤ r.active_connections)
      × (Elem q rs → (least_of r rs).active_connections ≤ q.active_connections)
unfolding least_of
least_of-le r [] q = ground arith
least_of-le r (p ∷ rs) q = ground (arith, least_of-le r rs q, least_of-le p rs q)

keep-all :
    {A : Type 0} (p : A → Bool) (x : A) (xs : List A)
    → Elem x (keep p xs)
    → (p x ≡ true) × Elem x xs
keep-all p x [] h = elim h [ ]
keep-all p x (y ∷ xs) h = ground (arith, keep-all p x xs)

select_among-Elem :
    (strategy : LoadBalancingStrategy) (router : ConduitRouter) (server_id : Text)
    (rs : List ReplicaInfo) (r : ReplicaInfo)
    → (select_among strategy router server_id rs).1 ≡ some r
    → Elem r rs
unfolding select_among
select_among-Elem round_robin router s [] r h = cc
select_among-Elem least_connections router s [] r h = cc
select_among-Elem round_robin router s (q ∷ qs) r h = get_elem?-Elem (q ∷ qs) _ r h
select_among-Elem least_connections router s (q ∷ qs) r h = ground (arith, least_of-Elem q (q ∷ qs))

available_replicas-is_available :
    (found : Option ServerInfo) (r : ReplicaInfo)
    → Elem r (available_replicas found)
    → is_available r ≡ true
unfolding available_replicas
available_replicas-is_available none r h = elim h [ ]
available_replicas-is_available (some info) r h = (keep-all is_available r info.replicas h).0

-- A selected replica is one of the server's, healthy, and its breaker is not open.
pub select_replica-available :
    (router : ConduitRouter) (server_id : Text) (r : ReplicaInfo)
    → (select_replica router server_id).1 ≡ some r
    → Elem r (get_healthy_replicas router.registry server_id)
      × (r.health.healthy ≡ true)
      × (has_open_breaker r ≡ false)
unfolding select_replica get_healthy_replicas
select_replica-available router s r h =
    let chosen =
      select_among-Elem router.load_balancing router s (get_healthy_replicas router.registry s) r
        h in
    let fit = available_replicas-is_available (find_server router.registry s) r chosen in
    (chosen, ground (arith, fit), ground (arith, fit))

least_among-le :
    (router : ConduitRouter) (server_id : Text) (rs : List ReplicaInfo) (r q : ReplicaInfo)
    → (select_among least_connections router server_id rs).1 ≡ some r
    → Elem q rs
    → r.active_connections ≤ q.active_connections
unfolding select_among
least_among-le router s [] r q h k = cc
least_among-le router s (p ∷ ps) r q h k = ground (arith, least_of-le p (p ∷ ps) q)

-- Least connections: the selected replica has no more active connections than any healthy one.
pub least_connections-least :
    (router : ConduitRouter) (server_id : Text) (r q : ReplicaInfo)
    → router.load_balancing ≡ least_connections
    → (select_replica router server_id).1 ≡ some r
    → Elem q (get_healthy_replicas router.registry server_id)
    → r.active_connections ≤ q.active_connections
unfolding select_replica
least_connections-least router s r q e h k =
    least_among-le router s (get_healthy_replicas router.registry s) r q
      (subst (λ l. (select_among l router s (get_healthy_replicas router.registry s)).1 ≡ some r) e
        h)
      k

-- A server is without a replica to select exactly when none is available.
select_among-none :
    (strategy : LoadBalancingStrategy) (router : ConduitRouter) (server_id : Text)
    (rs : List ReplicaInfo)
    → ((select_among strategy router server_id rs).1 ≡ none) ↔ (rs ≡ [])
unfolding select_among
select_among-none round_robin router s [] = ground arith
select_among-none least_connections router s [] = ground arith
select_among-none round_robin router s (q ∷ qs) = (
  λ h. absurd (get_elem?-in_range (q ∷ qs) (counter_of router s % length (q ∷ qs)) (omega arith) h),
  λ h. cc,
)
select_among-none least_connections router s (q ∷ qs) = ground arith

-- No replica is selected exactly when the server has no available one.
pub select_replica-none :
    (router : ConduitRouter) (server_id : Text)
    → ((select_replica router server_id).1 ≡ none)
      ↔ (get_healthy_replicas router.registry server_id ≡ [])
unfolding select_replica
select_replica-none router s =
    select_among-none router.load_balancing router s (get_healthy_replicas router.registry s)

-- The router after `k` selections for a server.
pub after_selections : ConduitRouter → Text → ℕ → ConduitRouter
after_selections router server_id zero = router
after_selections router server_id (suc k) =
    (select_replica (after_selections router server_id k) server_id).0

-- What one selection does in round robin, on replicas that are not none.
abbrev Rotates :
    ConduitRouter → Text → List ReplicaInfo → ConduitRouter × Option ReplicaInfo → Type 0
Rotates router s rs (router', selected) =
    (selected ≡ get_elem? rs (counter_of router s % length rs))
    × (counter_of router' s ≡ counter_of router s + 1)
    × (router'.registry ≡ router.registry)
    × (router'.load_balancing ≡ router.load_balancing)

select_among-Rotates :
    (strategy : LoadBalancingStrategy) (router : ConduitRouter) (s : Text) (rs : List ReplicaInfo)
    → strategy ≡ round_robin
    → 0 < length rs
    → Rotates router s rs (select_among strategy router s rs)
unfolding select_among
select_among-Rotates strategy router s [] e h = absurd (omega arith)
select_among-Rotates least_connections router s (q ∷ qs) e h = cc
select_among-Rotates round_robin router s (q ∷ qs) e h = (
  refl,
  ground (arith, get-put text_dec s s (counter_of router s + 1) router.round_robin_counters),
  refl,
  refl,
)

select_replica-Rotates :
    (router : ConduitRouter) (s : Text)
    → router.load_balancing ≡ round_robin
    → 0 < length (get_healthy_replicas router.registry s)
    → Rotates router s (get_healthy_replicas router.registry s) (select_replica router s)
unfolding select_replica
select_replica-Rotates router s =
    select_among-Rotates router.load_balancing router s (get_healthy_replicas router.registry s)

after_selections-counter :
    (router : ConduitRouter) (s : Text) (k : ℕ)
    → router.load_balancing ≡ round_robin
    → 0 < length (get_healthy_replicas router.registry s)
    → (counter_of (after_selections router s k) s ≡ counter_of router s + k)
      × ((after_selections router s k).registry ≡ router.registry)
      × ((after_selections router s k).load_balancing ≡ round_robin)
unfolding after_selections
after_selections-counter router s zero e h = (omega arith, refl, e)
after_selections-counter router s (suc k) e h =
    let (count, same, strategy) = after_selections-counter router s k e h in
    let (a, b, c, d) =
      select_replica-Rotates (after_selections router s k) s strategy
        (subst (λ g. 0 < length (get_healthy_replicas g s)) (sym same) h) in
    (omega (arith, b, count), c ∙ same, d ∙ strategy)

-- Round robin: while the healthy replicas of the server stay the same, the selections go through them
-- in order and start over at the end, from where the server's counter stands.
pub round_robin-cycles :
    (router : ConduitRouter) (server_id : Text) (k : ℕ)
    → router.load_balancing ≡ round_robin
    → 0 < length (get_healthy_replicas router.registry server_id)
    → (select_replica (after_selections router server_id k) server_id).1
      ≡ get_elem? (get_healthy_replicas router.registry server_id) (
          (counter_of router server_id + k)
          % length (get_healthy_replicas router.registry server_id))
round_robin-cycles router s k e h =
    let (count, same, strategy) = after_selections-counter router s k e h in
    let (a, b, c, d) =
      select_replica-Rotates (after_selections router s k) s strategy
        (subst (λ g. 0 < length (get_healthy_replicas g s)) (sym same) h) in
    cc
