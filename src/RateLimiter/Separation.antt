-- ===== src/RateLimiter/Separation.antt =====
-- The checks of a request are about different buckets.
use mcp_conduit.Base.{
  ℕ, ◌<◌, ◌≡◌, ◌≢◌, refl, arith, true, List, [], ◌∷◌, ◌++◌, length, length-append, Elem, Option,
  none, some, inl, inr, sym, ap, ◌∙◌,
}
use mcp_conduit.Base.JsMap.{Distinct}
use mcp_conduit.Base.Text.{Text, text_dec, codes}
use mcp_conduit.Limiter.Keys.{storage_key-injective}
use mcp_conduit.RateLimiter.{
  ToolRateLimitConfig, ServerRateLimitOverride, RateLimitConfig, RateLimitCheck, build_check,
  build_checks, ms_per_minute, ms_per_hour, ms_per_day, checks_if, client_key, server_key, tool_key,
  client_tool_key, find_override, tool_config, client_tool_checks, override_checks,
  get_client_checks, get_server_checks, get_checks, check, consume,
}
use mcp_conduit.RateLimiter.Apart.{
  HasKey, Cross, append-AllApart, Cross-left, Cross-right, Cross-keys, append-HasKey,
}
use mcp_conduit.RateLimiter.Memory.{Memory, memory}
use mcp_conduit.RateLimiter.Preview.{AllApart, alone, apart-evaluate_checks}

build_check-HasKey :
    (k : Text) (n : Option ℕ) (w : ℕ) (label : Text) → HasKey k (build_check k n w label)
unfolding build_check
build_check-HasKey k none w label d m = absurd m
build_check-HasKey k (some n) w label d (inl e) = ap (λ c. c.key) e
build_check-HasKey k (some n) w label d (inr m) = absurd m

build_check-AllApart :
    (k : Text) (n : Option ℕ) (w : ℕ) (label : Text) → AllApart (build_check k n w label)
unfolding build_check
build_check-AllApart k none w label = tt
build_check-AllApart k (some n) w label = (λ d m. absurd m, tt)

build_check-window :
    (k : Text) (n : Option ℕ) (w : ℕ) (label : Text) (d : RateLimitCheck)
    → Elem d (build_check k n w label)
    → d.window_ms ≡ w
unfolding build_check
build_check-window k none w label d m = absurd m
build_check-window k (some n) w label d (inl e) = ap (λ c. c.window_ms) e
build_check-window k (some n) w label d (inr m) = absurd m

Cross-windows :
    (k : Text) (n n' : Option ℕ) (w w' : ℕ) (label label' : Text)
    → w ≢ w'
    → Cross (build_check k n w label) (build_check k n' w' label')
Cross-windows k n n' w w' label label' other x y m m' e = other (
    sym (build_check-window k n w label x m)
    ∙ sym (storage_key-injective y.key x.key y.window_ms x.window_ms e).1
    ∙ build_check-window k n' w' label' y m')

-- The three lists that `build_checks` joins.
module _ (k : Text) (config : ToolRateLimitConfig) (label : Text) where
  abbrev minutes : List RateLimitCheck
  minutes = build_check k config.requests_per_minute ms_per_minute (label ++ codes "/minute")

  abbrev hours : List RateLimitCheck
  hours = build_check k config.requests_per_hour ms_per_hour (label ++ codes "/heure")

  abbrev days : List RateLimitCheck
  days = build_check k config.requests_per_day ms_per_day (label ++ codes "/jour")

  build_checks-HasKey : HasKey k (build_checks k config label)
  unfolding build_checks
  build_checks-HasKey =
      append-HasKey k (minutes ++ hours) days
        (append-HasKey k minutes hours (build_check-HasKey k config.requests_per_minute _ _)
          (build_check-HasKey k config.requests_per_hour _ _))
        (build_check-HasKey k config.requests_per_day _ _)

  build_checks-AllApart : AllApart (build_checks k config label)
  unfolding build_checks
  build_checks-AllApart =
      append-AllApart (minutes ++ hours) days
        (append-AllApart minutes hours (build_check-AllApart k config.requests_per_minute _ _)
          (build_check-AllApart k config.requests_per_hour _ _)
          (Cross-windows k config.requests_per_minute config.requests_per_hour _ _ _ _
            (omega arith)))
        (build_check-AllApart k config.requests_per_day _ _)
        (Cross-left minutes hours days
          (Cross-windows k config.requests_per_minute config.requests_per_day _ _ _ _ (omega arith))
          (Cross-windows k config.requests_per_hour config.requests_per_day _ _ _ _ (omega arith)))

checks_if-HasKey :
    (k : Text) (config : Option ToolRateLimitConfig) (label : Text)
    → HasKey k (checks_if k config label)
unfolding checks_if
checks_if-HasKey k none label d m = absurd m
checks_if-HasKey k (some config) label d m = build_checks-HasKey k config label d m

checks_if-AllApart :
    (k : Text) (config : Option ToolRateLimitConfig) (label : Text)
    → AllApart (checks_if k config label)
unfolding checks_if
checks_if-AllApart k none label = tt
checks_if-AllApart k (some config) label = build_checks-AllApart k config label

tool-HasKey :
    (client server tool : Text) (o : ServerRateLimitOverride)
    → HasKey (client_tool_key client server tool) (client_tool_checks client server tool o)
unfolding client_tool_checks
tool-HasKey client server [] o d m = absurd m
tool-HasKey client server (c ∷ tool) o d m =
    build_checks-HasKey (client_tool_key client server (c ∷ tool)) o.limits _ d m

tool-AllApart :
    (client server tool : Text) (o : ServerRateLimitOverride)
    → AllApart (client_tool_checks client server tool o)
unfolding client_tool_checks
tool-AllApart client server [] o = tt
tool-AllApart client server (c ∷ tool) o =
    build_checks-AllApart (client_tool_key client server (c ∷ tool)) o.limits _

longer : (k middle t : Text) → 0 < length middle → k ≢ k ++ middle ++ t
longer k middle t h e =
    omega (arith, h, ap length e, length-append (k ++ middle) t, length-append k middle)

heads : (c d : ℕ) (s t : Text) → c ≢ d → ◌≢◌ {A = Text} (c ∷ s) (d ∷ t)
heads c d s t h e = ground arith

-- The checks of a server, and what they share with those of a client.
override-AllApart :
    (client server tool : Text) (o : Option ServerRateLimitOverride)
    → AllApart (override_checks client server tool o)
unfolding override_checks
override-AllApart client server tool none = tt
override-AllApart client server tool (some o) =
    append-AllApart _ _
      (append-AllApart _ _ (build_checks-AllApart (server_key server) o.limits _)
        (checks_if-AllApart (tool_key server tool) (tool_config tool o) _)
        (Cross-keys (server_key server) (tool_key server tool) _ _
          (build_checks-HasKey (server_key server) o.limits _)
          (checks_if-HasKey (tool_key server tool) (tool_config tool o) _)
          (longer (server_key server) (codes ":tool:") tool (omega arith))))
      (tool-AllApart client server tool o)
      (Cross-left _ _ _
        (Cross-keys (server_key server) (client_tool_key client server tool) _ _
          (build_checks-HasKey (server_key server) o.limits _) (tool-HasKey client server tool o)
          (heads _ _ _ _ (omega arith)))
        (Cross-keys (tool_key server tool) (client_tool_key client server tool) _ _
          (checks_if-HasKey (tool_key server tool) (tool_config tool o) _)
          (tool-HasKey client server tool o) (heads _ _ _ _ (omega arith))))

-- The keys of a client's checks, and those of a server's.
client-AllApart :
    (config : RateLimitConfig) (client : Text) → AllApart (get_client_checks config client)
unfolding get_client_checks
client-AllApart config client =
    append-AllApart _ _ (checks_if-AllApart (codes "global") config.global _)
      (checks_if-AllApart (client_key client) config.per_client _)
      (Cross-keys (codes "global") (client_key client) _ _
        (checks_if-HasKey (codes "global") config.global _)
        (checks_if-HasKey (client_key client) config.per_client _) (heads _ _ _ _ (omega arith)))

-- A key that no check of a client has apart from its own per-client checks.
Cross-client :
    (config : RateLimitConfig) (client k : Text) (ys : List RateLimitCheck)
    → HasKey k ys
    → codes "global" ≢ k
    → client_key client ≢ k
    → Cross (get_client_checks config client) ys
unfolding get_client_checks
Cross-client config client k ys h g c =
    Cross-left _ _ ys
      (Cross-keys (codes "global") k _ ys (checks_if-HasKey (codes "global") config.global _) h g)
      (Cross-keys (client_key client) k _ ys
        (checks_if-HasKey (client_key client) config.per_client _) h c)

Cross-override :
    (config : RateLimitConfig) (client server tool : Text) (o : Option ServerRateLimitOverride)
    → Cross (get_client_checks config client) (override_checks client server tool o)
unfolding override_checks
Cross-override config client server tool none x y m m' = absurd m'
Cross-override config client server tool (some o) x y m m' =
    Cross-right (get_client_checks config client) _ _
      (Cross-right (get_client_checks config client) _ _
        (Cross-client config client (server_key server) _
          (build_checks-HasKey (server_key server) o.limits _) (heads _ _ _ _ (omega arith))
          (heads _ _ _ _ (omega arith)))
        (Cross-client config client (tool_key server tool) _
          (checks_if-HasKey (tool_key server tool) (tool_config tool o) _)
          (heads _ _ _ _ (omega arith)) (heads _ _ _ _ (omega arith))))
      (Cross-client config client (client_tool_key client server tool) _
        (tool-HasKey client server tool o) (heads _ _ _ _ (omega arith))
        (longer (client_key client) (codes ":") (tool_key server tool) (omega arith)))
      x y m m'

server-AllApart :
    (config : RateLimitConfig) (client server tool : Text)
    (overrides : Option (List ServerRateLimitOverride))
    → config.overrides ≡ overrides
    → AllApart (get_server_checks config client server tool)
      × Cross (get_client_checks config client) (get_server_checks config client server tool)
unfolding get_server_checks get_client_checks
server-AllApart config client server tool none e =
    rw (get_server_checks, e) (tt, λ x y m m'. absurd m')
server-AllApart config client server tool (some os) e =
    let found = find_override server os in
    rw (get_server_checks, e)
      (
        override-AllApart client server tool found,
        λ x y m m'. Cross-override config client server tool found x y m m',
      )

-- The checks of a request are about different buckets, whatever the ids and the tool are.
pub get_checks-AllApart :
    (config : RateLimitConfig) (client server tool : Text)
    → AllApart (get_checks config client server tool)
unfolding get_checks get_server_checks
get_checks-AllApart config client server tool =
    let (apart, cross) = server-AllApart config client server tool config.overrides refl in
    append-AllApart (get_client_checks config client) (get_server_checks config client server tool)
      (client-AllApart config client) apart cross

-- Over the in-memory limiter, whose buckets have different keys, and as long as no other request comes
-- in between: if `check` allows a request, then `consume` at the same time allows it too, for any
-- configuration, client, server and tool. None of its limits takes the place of another, although
-- consuming one limit may evict buckets.
pub preview-consume :
    (config : RateLimitConfig) (client server tool : Text) (now : ℕ) (m : Memory)
    → Distinct text_dec m.limiter.store
    → (check memory alone config client server tool now m).1.allowed ≡ true
    → (consume memory alone config client server tool now m).1.allowed ≡ true
unfolding check consume
preview-consume config client server tool now m d h =
    apart-evaluate_checks (get_checks config client server tool) now m d
      (get_checks-AllApart config client server tool) h
