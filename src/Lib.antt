-- ===== src/Lib.antt =====
-- Models and theorems of MCP Conduit, a gateway that agents use to call the tools of several MCP
-- servers. The program is written in TypeScript; the files named below stand under src/ of the
-- repository.
--
-- A call of a tool goes through the pipeline, which asks the other parts in turn. The access control
-- says whether the client may make it, the guardrails whether its arguments are acceptable, the rate
-- limits whether it may make it now, the cache policy whether the answer may be kept, and the cache
-- key under which name. The router finds the server by the name of the tool and one of the server's replicas, which it
-- asks of the registry; the registry keeps the tools, the health and the circuit breaker of every
-- replica. The breaker is asked once more before the request is sent, and is told how it ended.
--
-- - Base and its children: texts as lists of UTF-16 code units, the insertion-ordered Map of
--   JavaScript as an association list, decimal numbers, lists and tests over the native numbers.
-- - Breaker: router/circuit-breaker.ts, the class CircuitBreaker. `can_execute`, `on_success`,
--   `on_failure` and `reset` are its methods, each with the time that `Date.now()` gives it.
-- - Namespace: router/namespace.ts, all of its functions. A thrown conflict is a constructor.
-- - Tools: the descriptions of tools of cache/types.ts.
-- - Replica: the health of a replica, from checkReplicaHealth of router/registry.ts, and the calls
--   of the breaker in `forward` of proxy/mcp-client.ts (`begin_forward`, `end_forward`).
-- - Registry: the class ServerRegistry of router/registry.ts. What a server answers to a request
--   for its tools or for a health check is an argument.
-- - Router: router/router.ts, the class ConduitRouter.
-- - Limiter: rate-limit/limiter.ts, the class SlidingWindowLimiter; every reading of the clock is
--   an argument (`Readings`). Its specification is a log of the requests that were granted.
-- - RateLimiter: rate-limit/rate-limiter.ts, the limits of clients, servers and tools over any
--   backend of rate-limit/types.ts, the record RateLimitBackend. What other requests do to the
--   backend between two calls is a function. RateLimiter/Memory fills the interface with the Limiter.
-- - Queue: rate-limit/queue.ts, the class RequestQueue. The timer's ticks are events.
-- - Acl: utils/pattern.ts and auth/acl.ts.
-- - CachePolicy: cache/cache-policy.ts. Which names a plain object inherits is a parameter.
-- - Base/Json: the values of JSON over any type of numbers, with objects as lists of their properties
--   in the order that JavaScript gives them, and the assignment `object[key] = value`.
-- - DeepSort: utils/deep-sort.ts. CacheKey: generateCacheKey of cache/cache-key.ts, where
--   JSON.stringify and the hash are parameters.
-- - JsonRpc: proxy/json-rpc.ts, its validation, batches, responses and the parts of a tool call.
-- - Guardrails: guardrails/evaluator.ts and guardrails/types.ts. Regular expressions, and what objects
--   inherit, are parameters.
-- - Redactor: observability/redactor.ts. The conversion to lower case is a parameter.
-- - Inflight: cache/inflight.ts. A promise is its number, and that its factory settles is an event.
-- - Plugins: the class PluginRegistry of plugins/registry.ts, its registration and `runHook`.
-- - Pipeline: the class RequestPipeline of gateway/pipeline.ts. A step (`Step`) takes the history
--   of the request's events to a longer one and goes on, answers early or throws. The other
--   components are the record `Gateway`: each answer is a function of the history, so that the
--   theorems hold for any state of these components and for anything that other requests do in
--   between. Its children follow the method handleToolCall: Resolution finds the target of a call,
--   Approvals has the grants of approvals, Limits the limits of clients and servers, Gates the
--   access list, governance and the guardrails, Forwarding the calls of upstream servers, their
--   headers, the path without the cache and the key, ToolCall the path with the cache and the whole
--   method. Messages has buildForwardMessage, ToolsList the method handleToolsList, and Handle
--   `_handle` and the methods that are passed through. Pipeline/Monitor says which histories are
--   lawful; the modules Passing and Lawful below the parts prove it part by part.
--
-- Numbers of the program that count or tell the time are natural numbers; where the program
-- subtracts times the model adds on the other side. No definition needs fuel: the loops go over lists.
-- Each part has a module of tests, with runs on concrete values and instances of the theorems.
--
-- Not modelled: input and output (HTTP, child processes, Redis, SQL, files, metrics and logs), the
-- command line, the dashboard and the administration routes. The cache store, authentication,
-- governance and identity are not modelled by themselves: they enter the pipeline through its
-- interface, as does the deduplication of requests, which Inflight models on its own. Of the parts
-- above, these methods are missing: consumeWithQueue and the views of the quotas in RateLimiter; in
-- ServerRegistry the reset of one replica, the first initialisation of all servers, and the timers;
-- extractTenantId of the cache key; processBatch of the messages. The pipeline's log entries leave
-- out sizes and times, and its metrics the sanitising of their labels.
pub mod Base
pub mod DeepSort
pub mod CacheKey
pub mod Inflight
pub mod JsonRpc
pub mod Guardrails
pub mod Pipeline
pub mod Redactor
pub mod Plugins
pub mod Breaker
pub mod Namespace
pub mod Tools
pub mod Replica
pub mod Registry
pub mod Router
pub mod Limiter
pub mod RateLimiter
pub mod Acl
pub mod CachePolicy
pub mod Queue
