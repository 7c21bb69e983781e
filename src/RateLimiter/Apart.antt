-- ===== src/RateLimiter/Apart.antt =====
-- Lists of checks that are about different buckets.
use mcp_conduit.Base.{◌≡◌, ◌≢◌, ◌⊎◌, refl, List, [], ◌∷◌, ◌++◌, Elem, inl, inr, sym, ◌∙◌}
use mcp_conduit.Base.Text.{Text}
use mcp_conduit.Limiter.Keys.{storage_key-injective}
use mcp_conduit.RateLimiter.{RateLimitCheck}
use mcp_conduit.RateLimiter.Preview.{bucket_key, AllApart}

abbrev pub HasKey : Text → List RateLimitCheck → Type 0
HasKey k cs = (d : RateLimitCheck) → Elem d cs → d.key ≡ k

-- No check of the one list is about a bucket of the other.
abbrev pub Cross : List RateLimitCheck → List RateLimitCheck → Type 0
Cross xs ys = (x y : RateLimitCheck) → Elem x xs → Elem y ys → bucket_key y ≢ bucket_key x

pub Elem-append :
    (d : RateLimitCheck) (xs ys : List RateLimitCheck) → Elem d (xs ++ ys) → Elem d xs ⊎ Elem d ys
Elem-append d [] ys m = inr m
Elem-append d (x ∷ xs) ys (inl here) = inl (inl here)
Elem-append d (x ∷ xs) ys (inr later) = elim (Elem-append d xs ys later) [
  | inl m ↦ inl (inr m)
  | inr m ↦ inr m
]

pub append-AllApart :
    (xs ys : List RateLimitCheck) → AllApart xs → AllApart ys → Cross xs ys → AllApart (xs ++ ys)
append-AllApart [] ys a b cross = b
append-AllApart (x ∷ xs) ys (others, a) b cross = (
  λ d m. elim (Elem-append d xs ys m) [ inl m' ↦ others d m' | inr m' ↦ cross x d (inl refl) m' ],
  append-AllApart xs ys a b (λ x' y m m'. cross x' y (inr m) m'),
)

pub Cross-left : (xs ys zs : List RateLimitCheck) → Cross xs zs → Cross ys zs → Cross (xs ++ ys) zs
Cross-left xs ys zs a b x z m m' = elim (Elem-append x xs ys m) [
  | inl n ↦ a x z n m'
  | inr n ↦ b x z n m'
]

pub Cross-right : (xs ys zs : List RateLimitCheck) → Cross xs ys → Cross xs zs → Cross xs (ys ++ zs)
Cross-right xs ys zs a b x y m m' = elim (Elem-append y ys zs m') [
  | inl n ↦ a x y m n
  | inr n ↦ b x y m n
]

pub Cross-keys :
    (k k' : Text) (xs ys : List RateLimitCheck) → HasKey k xs → HasKey k' ys → k ≢ k' → Cross xs ys
Cross-keys k k' xs ys h h' other x y m m' e =
    other
      (sym (h x m) ∙ sym (storage_key-injective y.key x.key y.window_ms x.window_ms e).0 ∙ h' y m')

pub append-HasKey :
    (k : Text) (xs ys : List RateLimitCheck) → HasKey k xs → HasKey k ys → HasKey k (xs ++ ys)
append-HasKey k xs ys h h' d m = elim (Elem-append d xs ys m) [ inl n ↦ h d n | inr n ↦ h' d n ]
