-- ===== src/RateLimiter/Memory.antt =====
-- The in-memory backend of the rate limits: the sliding window limiter of src/rate-limit/limiter.ts,
-- with the readings of the clock that its next call makes.
use mcp_conduit.Limiter
use mcp_conduit.Limiter.{SlidingWindowLimiter, RateLimitResult, Readings}
use mcp_conduit.RateLimiter.{RateLimitBackend}

pub record Memory : Type 0 where
  pub limiter : SlidingWindowLimiter
  pub now : Readings

abbrev with_limiter : Memory → SlidingWindowLimiter × RateLimitResult → Memory × RateLimitResult
with_limiter m (l, r) = (record m { limiter = l }, r)

unfoldable pub memory : RateLimitBackend Memory
memory = record {
  consume = λ m key limit w. with_limiter m (Limiter.consume m.limiter key limit w m.now);
  check = λ m key limit w. with_limiter m (Limiter.check m.limiter key limit w m.now);
  reset = λ m key. record m { limiter = Limiter.reset m.limiter key };
}
