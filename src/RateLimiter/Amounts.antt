-- ===== src/RateLimiter/Amounts.antt =====
-- The order of the numbers of requests, `Infinity` included.
use mcp_conduit.Base.{ℕ, ◌≤◌, ◌≡◌, ◌⊎◌, refl, arith, inl, inr}
use mcp_conduit.RateLimiter.{Amount, finite, infinity}

-- Amounts of requests, with infinity above all.
abbrev pub AtMost : Amount → Amount → Type 0
AtMost (finite m) (finite n) = m ≤ n
AtMost a infinity = Unit
AtMost infinity (finite n) = ⊥

pub AtMost-refl : (a : Amount) → AtMost a a
AtMost-refl (finite m) = omega arith
AtMost-refl infinity = tt

pub AtMost-trans : (a b c : Amount) → AtMost a b → AtMost b c → AtMost a c
AtMost-trans (finite a) (finite b) (finite c) h k = omega arith
AtMost-trans (finite a) infinity (finite c) h k = absurd k
AtMost-trans a b infinity h k = tt
AtMost-trans infinity (finite b) (finite c) h k = absurd h
AtMost-trans infinity infinity (finite c) h k = absurd k

pub Amount-cases : (a : Amount) → ((n : ℕ) × (a ≡ finite n)) ⊎ (a ≡ infinity)
Amount-cases (finite n) = inl (n, refl)
Amount-cases infinity = inr refl
