-- ===== src/Limiter/Loads.antt =====
-- What the operations on one bucket do to the counts of all buckets, at one time.
use mcp_conduit.Base.{
  ℕ, ◌≤◌, ◌<◌, ◌≡◌, ◌≢◌, ◌⊎◌, refl, true, arith, List, [], ◌∷◌, ◌++◌, keep, length, none, ltb, leb,
  inl, inr, Bool-cases, if_neg, if_pos, ap, ◌∙◌, ◌*◌, ◌/◌,
}
use mcp_conduit.Base.JsMap
use mcp_conduit.Base.JsMap.{Distinct, Fresh, get_of_Fresh, put-Distinct}
use mcp_conduit.Base.Text.{Text, text_dec}
use mcp_conduit.Limiter.{
  SlidingWindowLimiter, Readings, storage_key, is_recent, get_valid, evict_to, evict_if_full,
  make_room, check, consume,
}
use mcp_conduit.Limiter.Tracking.{bucket, keep-keep, get_valid-bucket, put-bucket}
use mcp_conduit.Limiter.Keys.{storage_key-injective}

-- How many requests of a key the limiter counts in a window that ends now.
abbrev pub load : SlidingWindowLimiter → ℕ → Text → ℕ → ℕ
load l now key w = length (keep (is_recent now w) (bucket l (storage_key key w)))

get_valid-load :
    (l : SlidingWindowLimiter) (now : ℕ) (key : Text) (w : ℕ) (key' : Text) (w' : ℕ)
    → Distinct text_dec l.store
    → load (get_valid l (storage_key key w) w now).0 now key' w' ≡ load l now key' w'
get_valid-load l now key w key' w' distinct =
    let sk = storage_key key w in
    let sk' = storage_key key' w' in
    let (_, _, buckets) = get_valid-bucket l sk w now distinct in
    elim (text_dec sk' sk) [
      | yes same ↦ cc (
        (storage_key-injective key' key w' w same).1,
        buckets sk',
        if_pos (text_dec sk' sk) same (keep (is_recent now w) (bucket l sk)) (bucket l sk'),
        keep-keep now now w (bucket l sk) (omega arith),
      )
      | no other ↦ cc (
        buckets sk',
        if_neg (text_dec sk' sk) other (keep (is_recent now w) (bucket l sk)) (bucket l sk'),
      )
    ]

Fresh-evict_to :
    (target : ℕ) (k : Text) (m : List (Text × List ℕ))
    → Fresh text_dec k m
    → Fresh text_dec k (evict_to target m)
unfolding evict_to
Fresh-evict_to target k [] f = f
Fresh-evict_to target k (e ∷ m) f = ground (arith, Fresh-evict_to target k m)

evict_to-Distinct :
    (target : ℕ) (m : List (Text × List ℕ))
    → Distinct text_dec m
    → Distinct text_dec (evict_to target m)
unfolding evict_to
evict_to-Distinct target [] d = d
evict_to-Distinct target (e ∷ m) d = ground (arith, evict_to-Distinct target m)

get-evict_to :
    (target : ℕ) (k : Text) (m : List (Text × List ℕ))
    → Distinct text_dec m
    → (JsMap.get text_dec k (evict_to target m) ≡ JsMap.get text_dec k m)
      ⊎ (JsMap.get text_dec k (evict_to target m) ≡ none)
unfolding evict_to JsMap.get
get-evict_to target k [] d = inl refl
get-evict_to target k (e ∷ m) d = ground (arith, get-evict_to target k m, get_of_Fresh text_dec k m)

make_room-Distinct :
    (l : SlidingWindowLimiter) (sk : Text)
    → Distinct text_dec l.store
    → Distinct text_dec (make_room l sk).store
unfolding make_room evict_if_full
make_room-Distinct l sk d = ground (arith, evict_to-Distinct (l.max_buckets * 9 / 10) l.store)

-- A bucket stays as it is or is evicted.
make_room-bucket :
    (l : SlidingWindowLimiter) (sk j : Text)
    → Distinct text_dec l.store
    → (bucket (make_room l sk) j ≡ bucket l j) ⊎ (bucket (make_room l sk) j ≡ [])
unfolding make_room evict_if_full
make_room-bucket l sk j d = ground (arith, get-evict_to (l.max_buckets * 9 / 10) j l.store d)

-- `check` allows what is below the limit, and changes no count.
pub check-load :
    (l : SlidingWindowLimiter) (key : Text) (limit w : ℕ) (now : Readings)
    → Distinct text_dec l.store
    → let (l', r) = check l key limit w now in
      Distinct text_dec l'.store
      × (r.allowed ≡ ltb (load l now.valid_at key w) limit)
      × ((key' : Text) (w' : ℕ) → load l' now.valid_at key' w' ≡ load l now.valid_at key' w')
unfolding check
check-load l key limit w now d =
    let (distinct, valid, _) = get_valid-bucket l (storage_key key w) w now.valid_at d in
    (
      distinct,
      ap (λ ts. ltb (length ts) limit) valid,
      λ key' w'. get_valid-load l now.valid_at key w key' w' d,
    )

put-load :
    (l : SlidingWindowLimiter) (sk : Text) (ts : List ℕ) (now : ℕ) (key' : Text) (w' : ℕ)
    → Distinct text_dec l.store
    → storage_key key' w' ≢ sk
    → load
        (record (make_room l sk) { store = JsMap.put text_dec sk ts (make_room l sk).store })
        now
        key'
        w'
      ≤ load l now key' w'
put-load l sk ts now key' w' d other =
    let sk' = storage_key key' w' in
    let roomy = make_room l sk in
    let written = put-bucket roomy sk sk' ts in
    let unwritten = if_neg (text_dec sk' sk) other ts (bucket roomy sk') in
    elim (make_room-bucket l sk sk' d) [
      | inl same ↦
          omega (arith, ap (λ b. length (keep (is_recent now w') b)) (written ∙ unwritten ∙ same))
      | inr gone ↦
          omega (arith, ap (λ b. length (keep (is_recent now w') b)) (written ∙ unwritten ∙ gone))
    ]

-- `consume` allows what is below the limit, and raises no count but that of its own bucket.
pub consume-load :
    (l : SlidingWindowLimiter) (key : Text) (limit w : ℕ) (now : Readings)
    → Distinct text_dec l.store
    → let (l', r) = consume l key limit w now in
      Distinct text_dec l'.store
      × (load l now.valid_at key w < limit → r.allowed ≡ true)
      × ((key' : Text) (w' : ℕ)
          → storage_key key' w' ≢ storage_key key w
          → load l' now.valid_at key' w' ≤ load l now.valid_at key' w')
unfolding consume
consume-load l key limit w now d =
    let sk = storage_key key w in
    let after = get_valid l sk w now.valid_at in
    let (distinct, valid, _) = get_valid-bucket l sk w now.valid_at d in
    let same = λ (key' : Text) (w' : ℕ). get_valid-load l now.valid_at key w key' w' d in
    elim (Bool-cases (leb limit (length after.1))) [
      | inl full ↦ rw full (
        distinct,
        λ h. ground (arith, ap length valid, full, h),
        λ key' w' o. omega (arith, same key' w'),
      )
      | inr free ↦ rw free (
        put-Distinct text_dec sk (after.1 ++ now.reset_from ∷ []) (make_room after.0 sk).store
            (make_room-Distinct after.0 sk distinct),
        λ h. refl,
        λ key' w' o. omega (
          arith,
          same key' w',
          put-load after.0 sk (after.1 ++ now.reset_from ∷ []) now.valid_at key' w' distinct o,
        ),
      )
    ]
