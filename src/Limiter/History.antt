-- ===== src/Limiter/History.antt =====
-- The limiter against a log of every request that it granted.
use mcp_conduit.Base.{
  ℕ, ◌≤◌, ◌<◌, ◌≡◌, ◌↔◌, refl, true, List, [], ◌∷◌, keep, length, if_pos, some, leb, if◌then◌else◌,
  arith, inl, inr, Bool-cases, Option-cases,
}
use mcp_conduit.Base.JsMap
use mcp_conduit.Base.JsMap.{
  get-put, get-delete, Distinct, put-Distinct, delete-Distinct, length-delete-le, length-put_old,
}
use mcp_conduit.Base.Text.{Text, text_dec}
use mcp_conduit.Limiter.{
  SlidingWindowLimiter, RateLimitResult, Readings, empty, storage_key, is_recent, prune, get_valid,
  evict_if_full, make_room, consume,
}
use mcp_conduit.Limiter.Tracking.{
  bucket, Log, granted, Tracks, get_valid-bucket, get_valid-Tracks, recorded-Tracks,
}

-- The limiter is not full, so that no bucket is evicted.
abbrev pub HasRoom : SlidingWindowLimiter → Type 0
HasRoom l = length l.store < l.max_buckets

make_room-id : (l : SlidingWindowLimiter) (sk : Text) → HasRoom l → make_room l sk ≡ l
unfolding make_room evict_if_full
make_room-id l sk h = ground arith

-- The log after a call of `consume`.
unfoldable pub noted : Log → Text → ℕ → Readings → RateLimitResult → Log
noted log key w now result =
    if result.allowed then (storage_key key w, now.reset_from) ∷ log else log

-- The calls of `consume`, with their keys, limits, windows and times.
pub record Request : Type 0 where
  pub key : Text
  pub limit : ℕ
  pub window_ms : ℕ
  pub now : Readings

abbrev pub consume_for : SlidingWindowLimiter → Request → SlidingWindowLimiter × RateLimitResult
consume_for l r = consume l r.key r.limit r.window_ms r.now

abbrev pub recorded_at : Request → ℕ
recorded_at r = r.now.reset_from

-- The buckets are not full when the request comes, and its clock does not go back.
abbrev pub IsOrdinary : SlidingWindowLimiter → ℕ → Request → Type 0
IsOrdinary l since r = HasRoom l × (since ≤ r.now.valid_at) × (r.now.valid_at ≤ r.now.reset_from)

consume-allowed :
    (l : SlidingWindowLimiter) (log : Log) (since : ℕ) (r : Request)
    → Tracks l log since
    → since ≤ r.now.valid_at
    → ((consume_for l r).1.allowed ≡ true)
      ↔ (granted log (storage_key r.key r.window_ms) r.window_ms r.now.valid_at < r.limit)
unfolding consume
consume-allowed l log since r t h =
    let sk = storage_key r.key r.window_ms in
    let (_, valid, _) = get_valid-bucket l sk r.window_ms r.now.valid_at t.distinct in
    ground (arith, valid, t.counts r.key r.window_ms r.now.valid_at h)

Tracks-later :
    (l : SlidingWindowLimiter) (log : Log) (since later : ℕ)
    → since ≤ later
    → Tracks l log since
    → Tracks l log later
Tracks-later l log since later h t = record {
  distinct = t.distinct;
  counts = λ key w now k. t.counts key w now (omega arith);
}

prune-HasRoom :
    (l : SlidingWindowLimiter) (sk : Text) (all valid : List ℕ)
    → JsMap.get text_dec sk l.store ≡ some all
    → HasRoom l
    → HasRoom (prune l sk all valid)
unfolding prune
prune-HasRoom l sk all [] e room = ground (arith, length-delete-le text_dec sk l.store)
prune-HasRoom l sk all (t ∷ valid) e room =
    ground (arith, length-put_old text_dec sk (t ∷ valid) all l.store e)

get_valid-HasRoom :
    (l : SlidingWindowLimiter) (sk : Text) (w now : ℕ)
    → HasRoom l
    → HasRoom (get_valid l sk w now).0
unfolding get_valid
get_valid-HasRoom l sk w now room = elim (Option-cases (JsMap.get text_dec sk l.store)) [
  | inl e ↦ rw (e, get_valid) room
  | inr (all, e) ↦ rw (e, get_valid) (prune-HasRoom l sk all (keep (is_recent now w) all) e room)
]

get_valid-own :
    (l : SlidingWindowLimiter) (sk : Text) (w now : ℕ)
    → Distinct text_dec l.store
    → (get_valid l sk w now).1 ≡ bucket (get_valid l sk w now).0 sk
get_valid-own l sk w now d =
    let (_, valid, buckets) = get_valid-bucket l sk w now d in
    cc (
      valid,
      buckets sk,
      if_pos (text_dec sk sk) refl (keep (is_recent now w) (bucket l sk)) (bucket l sk),
    )

consume-Tracks :
    (l : SlidingWindowLimiter) (log : Log) (since : ℕ) (r : Request)
    → Tracks l log since
    → IsOrdinary l since r
    → Tracks
        (consume_for l r).0
        (noted log r.key r.window_ms r.now (consume_for l r).1)
        (recorded_at r)
unfolding consume noted
consume-Tracks l log since r t (room, h, h') =
    let sk = storage_key r.key r.window_ms in
    let after = get_valid l sk r.window_ms r.now.valid_at in
    let kept = get_valid-Tracks l log since r.key r.window_ms r.now.valid_at t h in
    elim (Bool-cases (leb r.limit (length after.1))) [
      | inl full ↦ rw full (Tracks-later after.0 log r.now.valid_at r.now.reset_from h' kept)
      | inr free ↦
          rw
            (
              free,
              make_room-id after.0 sk (get_valid-HasRoom l sk r.window_ms r.now.valid_at room),
              get_valid-own l sk r.window_ms r.now.valid_at t.distinct,
            )
            (recorded-Tracks after.0 log r.now.valid_at r.key r.window_ms r.now.reset_from kept h')
    ]

-- A row of requests, one after the other: the limiter and the log after it.
unfoldable pub serve : SlidingWindowLimiter → Log → List Request → SlidingWindowLimiter × Log
serve l log [] = (l, log)
serve l log (r ∷ rs) =
    let (l', result) = consume_for l r in serve l' (noted log r.key r.window_ms r.now result) rs

-- Every request of the row is ordinary when it comes.
unfoldable pub AreOrdinary : SlidingWindowLimiter → ℕ → List Request → Type 0
AreOrdinary l since [] = Unit
AreOrdinary l since (r ∷ rs) =
    IsOrdinary l since r × AreOrdinary (consume_for l r).0 (recorded_at r) rs

-- The time of the last request.
unfoldable pub last_time : ℕ → List Request → ℕ
last_time since [] = since
last_time since (r ∷ rs) = last_time (recorded_at r) rs

serve-Tracks :
    (l : SlidingWindowLimiter) (log : Log) (since : ℕ) (rs : List Request)
    → Tracks l log since
    → AreOrdinary l since rs
    → Tracks (serve l log rs).0 (serve l log rs).1 (last_time since rs)
unfolding serve AreOrdinary last_time
serve-Tracks l log since [] t o = t
serve-Tracks l log since (r ∷ rs) t (o, os) =
    serve-Tracks (consume_for l r).0 (noted log r.key r.window_ms r.now (consume_for l r).1)
      (recorded_at r) rs (consume-Tracks l log since r t o) os

empty-Tracks : (n : ℕ) → Tracks (empty n) [] 0
unfolding granted JsMap.get
empty-Tracks n = record { distinct = tt; counts = λ key w now h. refl }

-- Serve any row of requests, of any keys, limits and windows, from an empty limiter, as long as it is
-- not full when a request comes and the clock does not go back. Then the next request is allowed exactly
-- when fewer requests than its limit were granted to its key and window in the window that ends now.
pub consume-exact :
    (max_buckets : ℕ) (rs : List Request) (r : Request)
    → AreOrdinary (empty max_buckets) 0 rs
    → last_time 0 rs ≤ r.now.valid_at
    → let (l, log) = serve (empty max_buckets) [] rs in
      ((consume_for l r).1.allowed ≡ true)
      ↔ (granted log (storage_key r.key r.window_ms) r.window_ms r.now.valid_at < r.limit)
consume-exact n rs r os h =
    let (l, log) = serve (empty n) [] rs in
    consume-allowed l log (last_time 0 rs) r (serve-Tracks (empty n) [] 0 rs (empty-Tracks n) os) h
