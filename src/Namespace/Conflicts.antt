-- ===== src/Namespace/Conflicts.antt =====
-- The names in conflict, and the server that lists a tool.
use mcp_conduit.Base.{
  ℕ, suc, ◌+◌, ◌<◌, ◌≡◌, ◌↔◌, ◌⊎◌, List, [], ◌∷◌, arith, Elem, map, keep, ite, ltb,
}
use mcp_conduit.Base.JsMap
use mcp_conduit.Base.JsMap.{get-put, Distinct, put-Distinct, Fresh}
use mcp_conduit.Base.Text.{Text, text_dec}
use mcp_conduit.Namespace.{count_or_zero, count_name, count_names, count_all, detect_conflicts}

-- The server with this id lists the tool.
abbrev pub Listed : Text → Text → List (Text × List Text) → Type 0
Listed s t [] = ⊥
Listed s t ((server_id, tools) ∷ rest) = ((s ≡ server_id) × Elem t tools) ⊎ Listed s t rest

-- How often a name occurs.
abbrev pub occurrences : Text → List Text → ℕ
occurrences n [] = 0
occurrences n (t ∷ ts) = ite (text_dec n t) (suc (occurrences n ts)) (occurrences n ts)

abbrev pub occurrences_in : Text → List (Text × List Text) → ℕ
occurrences_in n [] = 0
occurrences_in n ((server_id, tools) ∷ rest) = occurrences n tools + occurrences_in n rest

count_names-get :
    (n : Text) (counts : List (Text × ℕ)) (tools : List Text)
    → count_or_zero (JsMap.get text_dec n (count_names counts tools))
      ≡ count_or_zero (JsMap.get text_dec n counts) + occurrences n tools
unfolding count_names count_name
count_names-get n counts [] = omega arith
count_names-get n counts (t ∷ ts) = ground (
  arith,
  count_names-get n (count_name counts t) ts,
  get-put text_dec n t (count_or_zero (JsMap.get text_dec t counts) + 1) counts,
)

count_all-get :
    (n : Text) (counts : List (Text × ℕ)) (tbs : List (Text × List Text))
    → count_or_zero (JsMap.get text_dec n (count_all counts tbs))
      ≡ count_or_zero (JsMap.get text_dec n counts) + occurrences_in n tbs
unfolding count_all
count_all-get n counts [] = omega arith
count_all-get n counts ((s, tools) ∷ rest) =
    omega (arith, count_all-get n (count_names counts tools) rest, count_names-get n counts tools)

count_names-Distinct :
    (counts : List (Text × ℕ)) (tools : List Text)
    → Distinct text_dec counts
    → Distinct text_dec (count_names counts tools)
unfolding count_names count_name
count_names-Distinct counts [] d = d
count_names-Distinct counts (t ∷ ts) d =
    count_names-Distinct (count_name counts t) ts (put-Distinct text_dec t _ counts d)

count_all-Distinct :
    (counts : List (Text × ℕ)) (tbs : List (Text × List Text))
    → Distinct text_dec counts
    → Distinct text_dec (count_all counts tbs)
unfolding count_all
count_all-Distinct counts [] d = d
count_all-Distinct counts ((s, tools) ∷ rest) d =
    count_all-Distinct (count_names counts tools) rest (count_names-Distinct counts tools d)

abbrev above_one : List (Text × ℕ) → List Text
above_one counts = map (λ e. e.0) (keep (λ e. ltb 1 e.1) counts)

above_one-Fresh :
    (n : Text) (counts : List (Text × ℕ)) → Fresh text_dec n counts → ¬ Elem n (above_one counts)
above_one-Fresh n [] f h = h
above_one-Fresh n ((k, c) ∷ counts) f h = ground (arith, above_one-Fresh n counts f.1)

above_one_iff :
    (n : Text) (counts : List (Text × ℕ))
    → Distinct text_dec counts
    → Elem n (above_one counts) ↔ (1 < count_or_zero (JsMap.get text_dec n counts))
unfolding JsMap.get
above_one_iff n [] d = ((λ h. elim h [ ]), λ h. elim h [ ])
above_one_iff n ((k, c) ∷ counts) d =
    ground (arith, above_one_iff n counts d.1, above_one-Fresh n counts)

-- The names in conflict are exactly those that occur more than once over all servers.
pub detect_conflicts_iff :
    (n : Text) (tools_by_server : List (Text × List Text))
    → Elem n (detect_conflicts tools_by_server) ↔ (1 < occurrences_in n tools_by_server)
unfolding detect_conflicts JsMap.get
detect_conflicts_iff n tbs =
    let counted : count_or_zero (JsMap.get text_dec n (count_all [] tbs)) ≡ occurrences_in n tbs =
      omega (arith, count_all-get n [] tbs) in
    rw counted at (above_one_iff n (count_all [] tbs) (count_all-Distinct [] tbs tt))
