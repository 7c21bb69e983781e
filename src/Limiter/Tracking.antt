-- ===== src/Limiter/Tracking.antt =====
-- A log of the granted requests, and what it says of the buckets.
use mcp_conduit.Base.{
  ℕ, suc, ◌+◌, ◌≤◌, ◌≡◌, ◌≢◌, refl, sym, Bool, ◌&&◌, List, [], ◌∷◌, ◌++◌, keep, length,
  length-keep-le, if_neg, if_pos, none, some, leb, if◌then◌else◌, arith, inl, inr, Option-cases, is,
  ite,
}
use mcp_conduit.Base.JsMap
use mcp_conduit.Base.JsMap.{
  get-put, get-delete, Distinct, put-Distinct, delete-Distinct, length-delete-le, length-put_old,
}
use mcp_conduit.Base.Text.{Text, text_dec}
use mcp_conduit.Limiter.{SlidingWindowLimiter, storage_key, is_recent, prune, get_valid}
use mcp_conduit.Limiter.Keys.{storage_key-injective}

-- What the limiter knows of a bucket.
abbrev pub bucket : SlidingWindowLimiter → Text → List ℕ
bucket l sk = elim (JsMap.get text_dec sk l.store) [ none ↦ [] | some ts ↦ ts ]

-- A granted request: the storage key of its bucket, and the time that was recorded.
abbrev pub Log : Type 0
Log = List (Text × ℕ)

-- The requests in the log, of one bucket, that lie in the window that ends now.
unfoldable pub granted : Log → Text → ℕ → ℕ → ℕ
granted [] sk w now = 0
granted ((k, t) ∷ log) sk w now =
    if is (text_dec k sk) && leb now (t + w)
    then suc (granted log sk w now)
    else granted log sk w now

-- From the time `since` on, every bucket counts in its window what the log counts.
pub record Tracks (l : SlidingWindowLimiter) (log : Log) (since : ℕ) : Type 0 where
  pub distinct : Distinct text_dec l.store
  pub counts :
      (key : Text) (w now : ℕ)
      → since ≤ now
      → length (keep (is_recent now w) (bucket l (storage_key key w)))
        ≡ granted log (storage_key key w) w now

pub keep-keep :
    (earlier now w : ℕ) (ts : List ℕ)
    → earlier ≤ now
    → keep (is_recent now w) (keep (is_recent earlier w) ts) ≡ keep (is_recent now w) ts
keep-keep earlier now w [] h = refl
keep-keep earlier now w (t ∷ ts) h = ground (arith, keep-keep earlier now w ts h)

-- If as many are kept as there are, all are kept.
keep-all_length :
    (now w : ℕ) (ts : List ℕ)
    → length (keep (is_recent now w) ts) ≡ length ts
    → keep (is_recent now w) ts ≡ ts
keep-all_length now w [] h = refl
keep-all_length now w (t ∷ ts) h =
    ground (arith, keep-all_length now w ts, length-keep-le (is_recent now w) ts)

prune-bucket :
    (l : SlidingWindowLimiter) (sk j : Text) (all valid : List ℕ)
    → Distinct text_dec l.store
    → JsMap.get text_dec sk l.store ≡ some all
    → (length valid ≡ length all → valid ≡ all)
    → bucket (prune l sk all valid) j ≡ ite (text_dec j sk) valid (bucket l j)
unfolding prune
prune-bucket l sk j all [] d e same = ground (arith, get-delete text_dec j sk l.store d)
prune-bucket l sk j all (t ∷ valid) d e same =
    ground (arith, get-put text_dec j sk (t ∷ valid) l.store)

prune-Distinct :
    (l : SlidingWindowLimiter) (sk : Text) (all valid : List ℕ)
    → Distinct text_dec l.store
    → Distinct text_dec (prune l sk all valid).store
unfolding prune
prune-Distinct l sk all [] d = delete-Distinct text_dec sk l.store d
prune-Distinct l sk all (t ∷ valid) d =
    ground (arith, put-Distinct text_dec sk (t ∷ valid) l.store d)

-- The bucket after its stale entries are dropped, and the other buckets.
pub get_valid-bucket :
    (l : SlidingWindowLimiter) (sk : Text) (w now : ℕ)
    → Distinct text_dec l.store
    → Distinct text_dec (get_valid l sk w now).0.store
      × ((get_valid l sk w now).1 ≡ keep (is_recent now w) (bucket l sk))
      × ((j : Text)
          → bucket (get_valid l sk w now).0 j
            ≡ ite (text_dec j sk) (keep (is_recent now w) (bucket l sk)) (bucket l j))
unfolding get_valid
get_valid-bucket l sk w now d = elim (Option-cases (JsMap.get text_dec sk l.store)) [
  | inl e ↦ (rw (e, get_valid) d, ground arith, λ j. ground arith)
  | inr (all, e) ↦ (
    rw (e, get_valid) (prune-Distinct l sk all (keep (is_recent now w) all) d),
    ground arith,
    λ j. ground (
      arith,
      prune-bucket l sk j all (keep (is_recent now w) all) d e (keep-all_length now w all),
    ),
  )
]

-- Dropping stale entries loses nothing that a later window counts.
pub get_valid-Tracks :
    (l : SlidingWindowLimiter) (log : Log) (since : ℕ) (key : Text) (w now : ℕ)
    → Tracks l log since
    → since ≤ now
    → Tracks (get_valid l (storage_key key w) w now).0 log now
get_valid-Tracks l log since key w now t h =
    let sk = storage_key key w in
    let (distinct, valid, buckets) = get_valid-bucket l sk w now t.distinct in
    record {
      distinct = distinct;
      counts = λ key' w' later k. elim (text_dec (storage_key key' w') sk) [
        | yes same ↦
            let ids = storage_key-injective key' key w' w same in
            cc (
              ids.1,
              buckets (storage_key key' w'),
              if_pos (text_dec (storage_key key' w') sk) same (keep (is_recent now w) (bucket l sk))
                  (bucket l (storage_key key' w')),
              keep-keep now later w (bucket l sk) k,
              t.counts key w later (omega arith),
            )
        | no other ↦
            rw (buckets (storage_key key' w'), if_neg _ other)
              (t.counts key' w' later (omega arith))
      ];
    }

pub put-bucket :
    (l : SlidingWindowLimiter) (sk j : Text) (ts : List ℕ)
    → bucket (record l { store = JsMap.put text_dec sk ts l.store }) j
      ≡ ite (text_dec j sk) ts (bucket l j)
put-bucket l sk j ts = ground (arith, get-put text_dec j sk ts l.store)

length-keep-snoc :
    (p : ℕ → Bool) (ts : List ℕ) (t : ℕ)
    → length (keep p (ts ++ t ∷ [])) ≡ length (keep p ts) + (if p t then 1 else 0)
length-keep-snoc p [] t = ground arith
length-keep-snoc p (u ∷ ts) t = ground (arith, length-keep-snoc p ts t)

granted-same :
    (log : Log) (sk : Text) (t w now : ℕ)
    → granted ((sk, t) ∷ log) sk w now ≡ granted log sk w now + (if is_recent now w t then 1 else 0)
unfolding granted
granted-same log sk t w now = ground arith

granted-other :
    (log : Log) (k sk : Text) (t w now : ℕ)
    → k ≢ sk
    → granted ((k, t) ∷ log) sk w now ≡ granted log sk w now
unfolding granted
granted-other log k sk t w now h = ground arith

-- Recording a grant in the bucket and in the log.
module _ (l : SlidingWindowLimiter) (log : Log) (since : ℕ) (key : Text) (w now : ℕ) where
  abbrev own : Text
  own = storage_key key w

  abbrev recorded : SlidingWindowLimiter
  recorded = record l { store = JsMap.put text_dec own (bucket l own ++ now ∷ []) l.store }

  recorded-counts :
      Tracks l log since
      → since ≤ now
      → (key' : Text) (w' later : ℕ) → now ≤ later
      → length (keep (is_recent later w') (bucket recorded (storage_key key' w')))
        ≡ granted ((own, now) ∷ log) (storage_key key' w') w' later
  recorded-counts t h key' w' later k =
      let own' = storage_key key' w' in
      let write = put-bucket l own own' (bucket l own ++ now ∷ []) in
      elim (text_dec own' own) [
        | yes same ↦ cc (
          (storage_key-injective key' key w' w same).1,
          write,
          if_pos (text_dec own' own) same (bucket l own ++ now ∷ []) (bucket l own'),
          length-keep-snoc (is_recent later w) (bucket l own) now,
          t.counts key w later (omega arith),
          granted-same log own now w later,
        )
        | no other ↦ cc (
          write,
          if_neg (text_dec own' own) other (bucket l own ++ now ∷ []) (bucket l own'),
          t.counts key' w' later (omega arith),
          granted-other log own own' now w' later (λ e. other (sym e)),
        )
      ]

  pub recorded-Tracks : Tracks l log since → since ≤ now → Tracks recorded ((own, now) ∷ log) now
  recorded-Tracks t h = record {
    distinct = put-Distinct text_dec own (bucket l own ++ now ∷ []) l.store t.distinct;
    counts = recorded-counts t h;
  }
