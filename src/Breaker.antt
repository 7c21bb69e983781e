-- ===== src/Breaker.antt =====
-- The circuit breaker of src/router/circuit-breaker.ts. Each call of `Date.now()` is an argument;
-- times and counters are natural numbers. `Date.now() - last >= timeout` is written as a sum, which
-- means the same over the integers.
pub mod Machine
pub mod Recovery
mod Tests
use mcp_conduit.Base.{
  ℕ, ◌+◌, ◌-◌, Bool, true, false, List, [], ◌∷◌, Option, none, some, ltb, leb, if◌then◌else◌,
}

pub data CircuitState : Type 0 where
  closed open_circuit half_open : CircuitState

-- `Partial<CircuitBreakerConfig>`, without `enabled`, which the breaker does not read.
pub record PartialConfig : Type 0 where
  pub failure_threshold : Option ℕ
  pub reset_timeout_ms : Option ℕ
  pub half_open_max_requests : Option ℕ
  pub success_threshold : Option ℕ

pub record Config : Type 0 where
  pub failure_threshold : ℕ
  pub reset_timeout_ms : ℕ
  pub half_open_max_requests : ℕ
  pub success_threshold : ℕ

abbrev pub default_config : Config
default_config = record {
  failure_threshold = 5;
  reset_timeout_ms = 30_000;
  half_open_max_requests = 1;
  success_threshold = 2;
}

pub record CircuitBreaker : Type 0 where
  pub config : Config
  pub open config use *
  pub state : CircuitState
  pub failure_count : ℕ
  pub success_count : ℕ
  pub last_failure_time : ℕ
  pub half_open_requests : ℕ
  pub trip_count : ℕ

abbrev or_default : Option ℕ → ℕ → ℕ
or_default none d = d
or_default (some v) d = v

-- `{ ...DEFAULT_CONFIG, ...config }`
merge : PartialConfig → Config
merge c = record {
  failure_threshold = or_default c.failure_threshold default_config.failure_threshold;
  reset_timeout_ms = or_default c.reset_timeout_ms default_config.reset_timeout_ms;
  half_open_max_requests =
      or_default c.half_open_max_requests default_config.half_open_max_requests;
  success_threshold = or_default c.success_threshold default_config.success_threshold;
}

abbrev pub fresh : Config → CircuitBreaker
fresh c = record {
  config = c;
  state = closed;
  failure_count = 0;
  success_count = 0;
  last_failure_time = 0;
  half_open_requests = 0;
  trip_count = 0;
}

-- The constructor.
pub create : PartialConfig → CircuitBreaker
unfolding merge
create c = fresh (merge c)

-- `halfOpenRequests < halfOpenMaxRequests ? (halfOpenRequests++, true) : false`
take_slot : CircuitBreaker → CircuitBreaker × Bool
take_slot b =
    if ltb b.half_open_requests b.half_open_max_requests
    then (record b { half_open_requests = b.half_open_requests + 1 }, true)
    else (b, false)

can_execute_in : CircuitState → CircuitBreaker → ℕ → CircuitBreaker × Bool
unfolding take_slot
can_execute_in closed b now = (b, true)
can_execute_in open_circuit b now =
    if leb (b.last_failure_time + b.reset_timeout_ms) now
    then take_slot (record b { state = half_open; half_open_requests = 0; success_count = 0 })
    else (b, false)
can_execute_in half_open b now = take_slot b

-- Whether a request may pass at the time `now`, and the breaker afterwards.
unfoldable pub can_execute : CircuitBreaker → ℕ → CircuitBreaker × Bool
unfolding can_execute_in
can_execute b now = can_execute_in b.state b now

on_success_in : CircuitState → CircuitBreaker → CircuitBreaker
on_success_in closed b = record b { failure_count = 0 }
on_success_in open_circuit b = b
on_success_in half_open b =
    if leb b.success_threshold (b.success_count + 1)
    then record b { state = closed; failure_count = 0; success_count = 0; half_open_requests = 0 }
    else record b {
      success_count = b.success_count + 1;
      half_open_requests =
          if ltb 0 b.half_open_requests then b.half_open_requests - 1 else b.half_open_requests;
    }

unfoldable pub on_success : CircuitBreaker → CircuitBreaker
unfolding on_success_in
on_success b = on_success_in b.state b

-- `b` has `lastFailureTime` set already.
on_failure_in : CircuitState → CircuitBreaker → CircuitBreaker
on_failure_in closed b =
    if leb b.failure_threshold (b.failure_count + 1)
    then record b {
      failure_count = b.failure_count + 1;
      state = open_circuit;
      trip_count = b.trip_count + 1;
    }
    else record b { failure_count = b.failure_count + 1 }
on_failure_in half_open b = record b {
  state = open_circuit;
  trip_count = b.trip_count + 1;
  success_count = 0;
  half_open_requests = 0;
}
on_failure_in open_circuit b = b

unfoldable pub on_failure : CircuitBreaker → ℕ → CircuitBreaker
unfolding on_failure_in
on_failure b now = on_failure_in b.state (record b { last_failure_time = now })

unfoldable pub reset : CircuitBreaker → CircuitBreaker
reset b = record b {
  state = closed;
  failure_count = 0;
  success_count = 0;
  half_open_requests = 0;
  last_failure_time = 0;
}

-- The calls that change a breaker, with the times at which they are made.
pub data Call : Type 0 where
  asks fails : ℕ → Call
  succeeds resets : Call

unfoldable pub step : CircuitBreaker → Call → CircuitBreaker
unfolding can_execute on_success on_failure reset
step b (asks now) = (can_execute b now).0
step b (fails now) = on_failure b now
step b succeeds = on_success b
step b resets = reset b

unfoldable pub run : CircuitBreaker → List Call → CircuitBreaker
run b [] = b
run b (c ∷ cs) = run (step b c) cs
