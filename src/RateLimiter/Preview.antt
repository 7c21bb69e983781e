-- ===== src/RateLimiter/Preview.antt =====
-- A preview of the limits against their consumption, over the in-memory limiter.
use mcp_conduit.Base.{
  ℕ, suc, ◌<◌, ◌≡◌, ◌≢◌, refl, true, false, arith, List, [], ◌∷◌, Elem, none, inl, inr, ltb→lt, sym,
  subst, ◌∙◌,
}
use mcp_conduit.Base.JsMap.{Distinct}
use mcp_conduit.Base.Text.{Text, text_dec}
use mcp_conduit.Limiter
use mcp_conduit.Limiter.{SlidingWindowLimiter, Readings, storage_key}
use mcp_conduit.Limiter.Loads.{load, check-load, consume-load}
use mcp_conduit.RateLimiter.{RateLimitCheck, evaluate_checks, first_refusal}
use mcp_conduit.RateLimiter.Checks.{passed-allowed, allowed-passed, first_refusal-none_iff}
use mcp_conduit.RateLimiter.Memory.{Memory, memory}

-- No other request comes between the calls of an evaluation.
abbrev pub alone : ℕ → Memory → Memory
alone n m = m

abbrev pub bucket_key : RateLimitCheck → Text
bucket_key c = storage_key c.key c.window_ms

-- No two checks of the list are about the same bucket.
abbrev pub AllApart : List RateLimitCheck → Type 0
AllApart [] = Unit
AllApart (c ∷ cs) = ((d : RateLimitCheck) → Elem d cs → bucket_key d ≢ bucket_key c) × AllApart cs

-- Every check has room.
abbrev Fits : Memory → List RateLimitCheck → Type 0
Fits m cs =
    (c : RateLimitCheck) → Elem c cs → load m.limiter m.now.valid_at c.key c.window_ms < c.limit

preview-Fits :
    (n : ℕ) (cs : List RateLimitCheck) (m : Memory)
    → Distinct text_dec m.limiter.store
    → (first_refusal memory alone false n cs m).1.1 ≡ none
    → Fits m cs
unfolding first_refusal memory
preview-Fits n [] m d e c there = absurd there
preview-Fits n (c ∷ cs) m d e q there =
    let (distinct, allowed, same) = check-load m.limiter c.key c.limit c.window_ms m.now d in
    let m' : Memory = record m {
      limiter = (Limiter.check m.limiter c.key c.limit c.window_ms m.now).0;
    } in
    let (granted, rest) = (first_refusal-none_iff memory alone false n c cs m).0 e in
    elim there [
      | inl here ↦
          subst (λ q. load m.limiter m.now.valid_at q.key q.window_ms < q.limit) (sym here)
            (ltb→lt (load m.limiter m.now.valid_at c.key c.window_ms) c.limit
              (sym allowed ∙ granted))
      | inr later ↦
          omega (arith, same q.key q.window_ms, preview-Fits (suc n) cs m' distinct rest q later)
    ]

Fits-consumed :
    (n : ℕ) (cs : List RateLimitCheck) (m : Memory)
    → Distinct text_dec m.limiter.store
    → AllApart cs
    → Fits m cs
    → (first_refusal memory alone true n cs m).1.1 ≡ none
unfolding memory first_refusal
Fits-consumed n [] m d apart fits = refl
Fits-consumed n (c ∷ cs) m d (others, apart) fits =
    let (distinct, allowed, lower) = consume-load m.limiter c.key c.limit c.window_ms m.now d in
    let m' : Memory = record m {
      limiter = (Limiter.consume m.limiter c.key c.limit c.window_ms m.now).0;
    } in
    let rest =
      Fits-consumed (suc n) cs m' distinct apart
        (λ q there. omega (arith, lower q.key q.window_ms (others q there), fits q (inr there))) in
    (first_refusal-none_iff memory alone true n c cs m).1 (allowed (fits c (inl refl)), rest)

-- If a preview of checks on different buckets allows a request, then the consumption at the same time
-- grants it at every check, although consuming a check may evict other buckets.
pub apart-evaluate_checks :
    (cs : List RateLimitCheck) (now : ℕ) (m : Memory)
    → Distinct text_dec m.limiter.store
    → AllApart cs
    → (evaluate_checks memory alone cs false now m).1.allowed ≡ true
    → (evaluate_checks memory alone cs true now m).1.allowed ≡ true
apart-evaluate_checks cs now m d apart h = passed-allowed memory alone cs true now m (
    Fits-consumed 0 cs m d apart
      (preview-Fits 0 cs m d (allowed-passed memory alone cs false now m h)))
