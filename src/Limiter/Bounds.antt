-- ===== src/Limiter/Bounds.antt =====
-- How many buckets the limiter keeps, and what its answers say.
use mcp_conduit.Base.{
  ℕ, ◌+◌, ◌*◌, ◌/◌, ◌≤◌, ◌<◌, ◌≡◌, ◌≢◌, refl, true, false, not, List, [], ◌∷◌, ◌++◌, keep, length,
  length-keep-le, none, some, leb, arith, inl, inr, Bool-cases, Option-cases, length-append,
}
use mcp_conduit.Base.JsMap
use mcp_conduit.Base.JsMap.{length-delete-le, length-put-le, length-put_old, get-has}
use mcp_conduit.Base.Text.{Text, text_dec, starts_with}
use mcp_conduit.Limiter.{
  SlidingWindowLimiter, Readings, empty, storage_key, is_recent, prune, get_valid, evict_to,
  evict_if_full, make_room, retry_seconds, check, consume, get_usage, reset, reset_all,
}

evict_to-length : (target : ℕ) (m : List (Text × List ℕ)) → length (evict_to target m) ≤ target
unfolding evict_to
evict_to-length target [] = omega arith
evict_to-length target (e ∷ m) = ground (arith, evict_to-length target m)

-- The operations, with the times that they read.
pub data Call : Type 0 where
  checks consumes : Text → ℕ → ℕ → Readings → Call
  asks_usage : Text → ℕ → ℕ → ℕ → Call
  resets : Text → Call
  resets_all : Call

unfoldable pub step : SlidingWindowLimiter → Call → SlidingWindowLimiter
step l (checks key limit w now) = (check l key limit w now).0
step l (consumes key limit w now) = (consume l key limit w now).0
step l (asks_usage key w now later) = (get_usage l key w now later).0
step l (resets key) = reset l key
step l resets_all = reset_all l

unfoldable pub run : SlidingWindowLimiter → List Call → SlidingWindowLimiter
run l [] = l
run l (c ∷ cs) = run (step l c) cs

abbrev IsBounded : ℕ → SlidingWindowLimiter → Type 0
IsBounded n l = (l.max_buckets ≡ n) × (length l.store ≤ n)

prune-IsBounded :
    (n : ℕ) (l : SlidingWindowLimiter) (sk : Text) (all valid : List ℕ)
    → (u : List ℕ) → JsMap.get text_dec sk l.store ≡ some u
    → IsBounded n l
    → IsBounded n (prune l sk all valid)
unfolding prune
prune-IsBounded n l sk all [] u e b = ground (arith, length-delete-le text_dec sk l.store)
prune-IsBounded n l sk all (t ∷ valid) u e b =
    ground (arith, length-put_old text_dec sk (t ∷ valid) u l.store e)

get_valid-IsBounded :
    (n : ℕ) (l : SlidingWindowLimiter) (sk : Text) (w now : ℕ)
    → IsBounded n l
    → IsBounded n (get_valid l sk w now).0
unfolding get_valid
get_valid-IsBounded n l sk w now b = elim (Option-cases (JsMap.get text_dec sk l.store)) [
  | inl e ↦ rw (e, get_valid) b
  | inr (all, e) ↦
      rw (e, get_valid) (prune-IsBounded n l sk all (keep (is_recent now w) all) all e b)
]

put-IsBounded :
    (n : ℕ) (l : SlidingWindowLimiter) (sk : Text) (ts : List ℕ)
    → 0 < n
    → IsBounded n l
    → IsBounded n
        (record (make_room l sk) { store = JsMap.put text_dec sk ts (make_room l sk).store })
unfolding make_room evict_if_full
put-IsBounded n l sk ts p b = elim (Bool-cases (JsMap.has text_dec sk l.store)) [
  | inl there ↦
      let (u, e) = get-has text_dec sk l.store there in
      rw there (ground (arith, length-put_old text_dec sk ts u l.store e))
  | inr new ↦ rw new (
      ground (
        arith,
        length-put-le text_dec sk ts l.store,
        length-put-le text_dec sk ts (evict_to (l.max_buckets * 9 / 10) l.store),
        evict_to-length (l.max_buckets * 9 / 10) l.store,
      ))
]

consume-IsBounded :
    (n : ℕ) (l : SlidingWindowLimiter) (key : Text) (limit w : ℕ) (now : Readings)
    → 0 < n
    → IsBounded n l
    → IsBounded n (consume l key limit w now).0
unfolding consume
consume-IsBounded n l key limit w now p b =
    let sk = storage_key key w in
    let after = get_valid l sk w now.valid_at in
    let kept = get_valid-IsBounded n l sk w now.valid_at b in
    elim (Bool-cases (leb limit (length after.1))) [
      | inl full ↦ rw full kept
      | inr room ↦ rw room (put-IsBounded n after.0 sk (after.1 ++ now.reset_from ∷ []) p kept)
    ]

step-IsBounded :
    (n : ℕ) (l : SlidingWindowLimiter) (c : Call) → 0 < n → IsBounded n l → IsBounded n (step l c)
unfolding step check get_usage reset reset_all
step-IsBounded n l (checks key limit w now) p b =
    get_valid-IsBounded n l (storage_key key w) w now.valid_at b
step-IsBounded n l (consumes key limit w now) p b = consume-IsBounded n l key limit w now p b
step-IsBounded n l (asks_usage key w now later) p b =
    get_valid-IsBounded n l (storage_key key w) w now b
step-IsBounded n l (resets key) p b = (
  b.0,
  omega (
    arith,
    b.1,
    length-keep-le (λ (e : Text × List ℕ). not (starts_with (key ++ b':' ∷ []) e.0)) l.store,
  ),
)
step-IsBounded n l resets_all p b = omega (arith, b.0, b.1)

run-IsBounded :
    (n : ℕ) (l : SlidingWindowLimiter) (cs : List Call)
    → 0 < n
    → IsBounded n l
    → IsBounded n (run l cs)
unfolding run
run-IsBounded n l [] p b = b
run-IsBounded n l (c ∷ cs) p b = run-IsBounded n (step l c) cs p (step-IsBounded n l c p b)

-- Whatever keys are used and at whatever times, a limiter with room for at least one bucket never holds
-- more buckets than its maximum.
pub run-bounded :
    (max_buckets : ℕ) (cs : List Call)
    → 0 < max_buckets
    → length (run (empty max_buckets) cs).store ≤ max_buckets
run-bounded n cs p = (run-IsBounded n (empty n) cs p (refl, omega arith)).1

-- A request that is allowed leaves one place less than `check` saw; a refused one must wait at least a
-- second.
pub consume-remaining :
    (l : SlidingWindowLimiter) (key : Text) (limit w : ℕ) (now : Readings)
    → let before = (check l key limit w now).1 in
      let after = (consume l key limit w now).1 in
      (after.allowed ≡ true → (after.remaining + 1 ≡ before.remaining) × (after.retry_after ≡ none))
      × (after.allowed ≡ false
          → (after.remaining ≡ 0) × (after.retry_after ≢ none) × (after.retry_after ≢ some 0))
unfolding check consume retry_seconds
consume-remaining l key limit w now =
    ground (
      arith,
      length-append (get_valid l (storage_key key w) w now.valid_at).1 (now.reset_from ∷ []),
    )
