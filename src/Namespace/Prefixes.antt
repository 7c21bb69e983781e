-- ===== src/Namespace/Prefixes.antt =====
-- Taking a prefixed name apart and putting it together.
use mcp_conduit.Base.{
  ℕ, zero, suc, ◌≡◌, refl, ap, ◌≢◌, inl, inr, [], ◌∷◌, ◌++◌, some, arith, length, take, drop, All,
  Option-cases,
}
use mcp_conduit.Base.Text.{Text}
use mcp_conduit.Namespace.{
  separator, Target, apply_namespace, index_of, cut_at, resolve_namespaced_tool,
}

abbrev pub DotFree : Text → Type 0
DotFree s = All (λ c. separator ≢ c) s

index_of-append :
    (s t : Text) → DotFree s → index_of separator (s ++ separator ∷ t) ≡ some (length s)
unfolding index_of
index_of-append [] t h = ground arith
index_of-append (c ∷ s) t h = ground (arith, index_of-append s t h.1)

take-append : (s t : Text) → take (length s) (s ++ t) ≡ s
take-append [] t = refl
take-append (c ∷ s) t = ap (◌∷◌ c) (take-append s t)

drop-append : (s t : Text) (c : ℕ) → drop (suc (length s)) (s ++ c ∷ t) ≡ t
drop-append [] t c = refl
drop-append (d ∷ s) t c = drop-append s t c

-- The first dot: the text before it has none, and the text is the two parts around it.
index_of-some :
    (s : Text) (i : ℕ)
    → index_of separator s ≡ some i
    → (s ≡ take i s ++ separator ∷ drop (suc i) s) × DotFree (take i s)
unfolding index_of
index_of-some [] i h = cc
index_of-some (c ∷ s) zero h = ground arith
index_of-some (c ∷ s) (suc i) h = ground (arith, index_of-some s i)

-- A name that was put together from a non-empty server id without a dot and a non-empty tool name
-- comes apart into these two.
pub resolve-apply :
    (server_id tool_name : Text)
    → server_id ≢ []
    → DotFree server_id
    → tool_name ≢ []
    → resolve_namespaced_tool (apply_namespace server_id tool_name)
      ≡ some (record { server_id = server_id; tool_name = tool_name })
unfolding resolve_namespaced_tool apply_namespace cut_at
resolve-apply [] t h d k = absurd (h refl)
resolve-apply (c ∷ s) [] h d k = absurd (k refl)
resolve-apply (c ∷ s) (e ∷ t) h d k =
    rw (index_of-append (c ∷ s) (e ∷ t) d, resolve_namespaced_tool)
      (ground (arith, take-append s (separator ∷ e ∷ t), drop-append s (e ∷ t) separator))

cut_at-some :
    (name : Text) (i : ℕ) (t : Target)
    → cut_at name i ≡ some t
    → (t.server_id ≡ take i name)
      × (t.tool_name ≡ drop (suc i) name)
      × (t.server_id ≢ [])
      × (t.tool_name ≢ [])
unfolding cut_at
cut_at-some name zero t h = cc
cut_at-some [] (suc i) t h = cc
cut_at-some (c ∷ name) (suc i) t h = ground arith

-- Conversely a name comes apart only at its first dot, into two non-empty parts that give it back.
pub apply-resolve :
    (name : Text) (t : Target)
    → resolve_namespaced_tool name ≡ some t
    → (apply_namespace t.server_id t.tool_name ≡ name)
      × (t.server_id ≢ [])
      × DotFree t.server_id
      × (t.tool_name ≢ [])
unfolding resolve_namespaced_tool apply_namespace cut_at
apply-resolve name t h = elim (Option-cases (index_of separator name)) [
  | inl e ↦ absurd (ground arith)
  | inr (i, e) ↦ ground (arith, cut_at-some name i t, index_of-some name i e)
]

-- Two server ids without a dot, with any tools, share a name only if they are equal, and so are the
-- tools.
pub apply-injective :
    (s s' t t' : Text)
    → DotFree s
    → DotFree s'
    → apply_namespace s t ≡ apply_namespace s' t'
    → (s ≡ s') × (t ≡ t')
unfolding apply_namespace
apply-injective [] [] t t' d d' e = (refl, ground arith)
apply-injective [] (c ∷ s') t t' d d' e = ground arith
apply-injective (c ∷ s) [] t t' d d' e = ground arith
apply-injective (c ∷ s) (c' ∷ s') t t' d d' e = ground (arith, apply-injective s s' t t' d.1 d'.1)
