-- ===== src/RateLimiter/Checks.antt =====
-- What the evaluation of a row of limits answers, over any backend and whatever other requests do.
use mcp_conduit.Base.{
  ℕ, suc, ◌+◌, ◌≡◌, ◌≢◌, ◌↔◌, refl, Bool, true, false, List, [], ◌∷◌, ◌++◌, length, Option, none,
  some, arith, Elem, inl, inr, Bool-cases, Option-cases, ltb, ap, sym, subst, ◌⊎◌, ◌∙◌,
}
use mcp_conduit.Limiter.{RateLimitResult}
use mcp_conduit.RateLimiter.Amounts.{AtMost, AtMost-refl, AtMost-trans, Amount-cases}
use mcp_conduit.RateLimiter.{
  RateLimitBackend, RateLimitCheck, RateLimitCheckResult, Amount, finite, infinity, ask, blocked,
  tighter, first_refusal, most_restrictive, evaluate_checks,
}

module _ {S : Type 0} (backend : RateLimitBackend S) (others : ℕ → S → S) where
  -- The answers to a row of calls, none of which stops the row, and the state after them.
  unfoldable pub answers : Bool → ℕ → List RateLimitCheck → S → List RateLimitResult
  answers mode n [] s = []
  answers mode n (c ∷ cs) s =
      let (s', r) = ask backend others mode s c in r ∷ answers mode (suc n) cs (others n s')

  unfoldable pub after : Bool → ℕ → List RateLimitCheck → S → S
  after mode n [] s = s
  after mode n (c ∷ cs) s = after mode (suc n) cs (others n (ask backend others mode s c).0)

  -- The evaluation stops at `refused`, which comes after a row of grants.
  record Stopped (mode : Bool) (n : ℕ) (cs : List RateLimitCheck) (s : S) : Type 0 where
    granted : List RateLimitCheck
    refused : RateLimitCheck
    rest : List RateLimitCheck
    split : cs ≡ granted ++ refused ∷ rest
    grants : (r : RateLimitResult) → Elem r (answers mode n granted s) → r.allowed ≡ true
    refusal : (ask backend others mode (after mode n granted s) refused).1.allowed ≡ false
    outcome :
        let (s', r) = ask backend others mode (after mode n granted s) refused in
        first_refusal backend others mode n cs s ≡ (
          others (n + length granted) s',
          (suc (n + length granted), some (blocked backend others r refused)),
        )

  stops :
      (mode : Bool) (n : ℕ) (cs : List RateLimitCheck) (s : S) (result : RateLimitCheckResult)
      → (first_refusal backend others mode n cs s).1.1 ≡ some result
      → Stopped mode n cs s
  unfolding first_refusal answers after
  stops mode n [] s result e = ground arith
  stops mode n (c ∷ cs) s result e = elim (Bool-cases (ask backend others mode s c).1.allowed) [
    | inl ok ↦
        let later =
          stops mode (suc n) cs (others n (ask backend others mode s c).0) result (ground arith) in
        record {
          granted = c ∷ later.granted;
          refused = later.refused;
          rest = later.rest;
          split = ap (λ l. c ∷ l) later.split;
          grants = λ r m. elim m [ inl same ↦ cc (same, ok) | inr m' ↦ later.grants r m' ];
          refusal = later.refusal;
          outcome = ground (arith, later.outcome);
        }
    | inr stop ↦ record {
      granted = [];
      refused = c;
      rest = cs;
      split = refl;
      grants = λ r m. absurd m;
      refusal = stop;
      outcome = ground arith;
    }
  ]

  -- Without a refusal the row goes through.
  passes :
      (mode : Bool) (n : ℕ) (cs : List RateLimitCheck) (s : S)
      → (first_refusal backend others mode n cs s).1.1 ≡ none
      → ((r : RateLimitResult) → Elem r (answers mode n cs s) → r.allowed ≡ true)
        × (first_refusal backend others mode n cs s ≡ (after mode n cs s, (n + length cs, none)))
  unfolding first_refusal answers after
  passes mode n [] s e = (λ r m. absurd m, ground arith)
  passes mode n (c ∷ cs) s e = elim (Bool-cases (ask backend others mode s c).1.allowed) [
    | inl ok ↦
        let (all, same) =
          passes mode (suc n) cs (others n (ask backend others mode s c).0) (ground arith) in
        (λ r m. elim m [ inl here ↦ cc (here, ok) | inr later ↦ all r later ], ground (arith, same))
    | inr stop ↦ ground (arith, stop)
  ]

  most_restrictive-allowed :
      (n : ℕ) (cs : List RateLimitCheck) (s : S) (best : Option RateLimitCheckResult)
      → ((b : RateLimitCheckResult) → best ≡ some b → b.allowed ≡ true)
      → (b : RateLimitCheckResult) → (most_restrictive backend others n cs s best).1 ≡ some b
      → b.allowed ≡ true
  unfolding most_restrictive
  most_restrictive-allowed n [] s best h b e = h b e
  most_restrictive-allowed n (c ∷ cs) s none h b e =
      let (s', r) = ask backend others false s c in
      most_restrictive-allowed (suc n) cs (others n s') (some (tighter backend others r none))
        (λ b' e'. ground arith) b e
  most_restrictive-allowed n (c ∷ cs) s (some best) h b e =
      let (s', r) = ask backend others false s c in
      most_restrictive-allowed (suc n) cs (others n s')
        (some (tighter backend others r (some best))) (λ b' e'. ground (arith, h best refl)) b e

  pub passed-allowed :
      (cs : List RateLimitCheck) (mode : Bool) (now : ℕ) (s : S)
      → (first_refusal backend others mode 0 cs s).1.1 ≡ none
      → (evaluate_checks backend others cs mode now s).1.allowed ≡ true
  unfolding evaluate_checks
  passed-allowed cs mode now s e =
      let (s', (n, _)) = first_refusal backend others mode 0 cs s in
      elim (Option-cases (most_restrictive backend others n cs s' none).1) [
        | inl empty ↦ rw (evaluate_checks, e, empty) refl
        | inr (b, found) ↦
            rw (evaluate_checks, e, found)
              (most_restrictive-allowed n cs s' none (λ b' e'. ground arith) b found)
      ]

  zero_plus : (n : ℕ) → 0 + n ≡ n
  zero_plus n = omega arith

  refused-outcome :
      (cs : List RateLimitCheck) (mode : Bool) (now : ℕ) (s s' : S) (n : ℕ)
      (result : RateLimitCheckResult)
      → first_refusal backend others mode 0 cs s ≡ (s', (n, some result))
      → evaluate_checks backend others cs mode now s ≡ (s', result)
  unfolding evaluate_checks
  refused-outcome cs mode now s s' n result e = ground arith

  -- An evaluation that does not allow the request stopped at a check that the backend refused, after it
  -- granted all checks before it. The answer is that refusal, with the name, key, limit and window of
  -- the check; the checks before it stay consumed when the evaluation consumes.
  pub evaluate_checks-refused :
      (cs : List RateLimitCheck) (mode : Bool) (now : ℕ) (s : S)
      → (evaluate_checks backend others cs mode now s).1.allowed ≡ false
      → (granted : List RateLimitCheck) × (refused : RateLimitCheck) × (rest : List RateLimitCheck)
        × (cs ≡ granted ++ refused ∷ rest)
        × ((r : RateLimitResult) → Elem r (answers mode 0 granted s) → r.allowed ≡ true)
        × (let (s', r) = ask backend others mode (after mode 0 granted s) refused in
            (r.allowed ≡ false)
            × (evaluate_checks backend others cs mode now s
                ≡ (others (length granted) s', blocked backend others r refused)))
  unfolding evaluate_checks
  evaluate_checks-refused cs mode now s h =
      elim (Option-cases (first_refusal backend others mode 0 cs s).1.1) [
        | inl none_refused ↦ cc (passed-allowed cs mode now s none_refused, h)
        | inr (result, e) ↦
            let stop = stops mode 0 cs s result e in
            (
              stop.granted,
              stop.refused,
              stop.rest,
              stop.split,
              stop.grants,
              (
                stop.refusal,
                cc (
                  refused-outcome cs mode now s _ _ _ stop.outcome,
                  zero_plus (length stop.granted),
                ),
              ),
            )
      ]

  abbrev Below : RateLimitCheckResult → Option RateLimitCheckResult → Type 0
  Below b none = Unit
  Below b (some best) = AtMost b.remaining best.remaining

  tighter-Below :
      (r : RateLimitResult) (best : Option RateLimitCheckResult)
      → Below (tighter backend others r best) best
        × AtMost (tighter backend others r best).remaining (finite r.remaining)
  tighter-Below r none = (tt, omega arith)
  tighter-Below r (some best) = elim (Amount-cases best.remaining) [
    | inl (m, e) ↦ elim (Bool-cases (ltb r.remaining m)) [
      | inl less ↦ rw (e, less) (ground (arith, less), omega arith)
      | inr more ↦ rw (e, more) (omega arith, ground (arith, more))
    ]
    | inr e ↦ rw e (tt, omega arith)
  ]

  Below-trans :
      (b t : RateLimitCheckResult) (best : Option RateLimitCheckResult)
      → AtMost b.remaining t.remaining
      → Below t best
      → Below b best
  Below-trans b t none h k = tt
  Below-trans b t (some best) h k = AtMost-trans b.remaining t.remaining best.remaining h k

  some-injective : {x y : RateLimitCheckResult} → some x ≡ some y → x ≡ y
  some-injective e = ground arith

  most_restrictive-least :
      (n : ℕ) (cs : List RateLimitCheck) (s : S) (best : Option RateLimitCheckResult)
      (b : RateLimitCheckResult)
      → (most_restrictive backend others n cs s best).1 ≡ some b
      → Below b best
        × ((r : RateLimitResult)
            → Elem r (answers false n cs s)
            → AtMost b.remaining (finite r.remaining))
  unfolding most_restrictive answers
  most_restrictive-least n [] s none b e = (tt, λ r m. absurd m)
  most_restrictive-least n [] s (some best) b e = (
    subst (λ b'. AtMost b.remaining b'.remaining) (sym (some-injective e))
        (AtMost-refl b.remaining),
    λ r m. absurd m,
  )
  most_restrictive-least n (c ∷ cs) s best b e =
      let (s', r) = ask backend others false s c in
      let (tight, later) =
        most_restrictive-least (suc n) cs (others n s') (some (tighter backend others r best)) b
          e in
      let (under, low) = tighter-Below r best in
      (
        Below-trans b (tighter backend others r best) best tight under,
        λ r' m. elim m [
          | inl here ↦
              subst (λ x. AtMost b.remaining (finite x.remaining)) (sym here)
                (AtMost-trans b.remaining (tighter backend others r best).remaining
                  (finite r.remaining) tight low)
          | inr there ↦ later r' there
        ],
      )

  tighter-one_of :
      (r : RateLimitResult) (best : Option RateLimitCheckResult)
      → (best ≡ some (tighter backend others r best))
        ⊎ ((tighter backend others r best).remaining ≡ finite r.remaining)
  tighter-one_of r none = inr refl
  tighter-one_of r (some best) = elim (Amount-cases best.remaining) [
    | inl (m, e) ↦ elim (Bool-cases (ltb r.remaining m)) [
      | inl less ↦ rw (e, less) (inr refl)
      | inr more ↦ rw (e, more) (inl refl)
    ]
    | inr e ↦ rw e (inr refl)
  ]

  -- What is reported is the start, or an answer.
  most_restrictive-attained :
      (n : ℕ) (cs : List RateLimitCheck) (s : S) (best : Option RateLimitCheckResult)
      (b : RateLimitCheckResult)
      → (most_restrictive backend others n cs s best).1 ≡ some b
      → (best ≡ some b)
        ⊎ ((r : RateLimitResult) × Elem r (answers false n cs s)
            × (b.remaining ≡ finite r.remaining))
  unfolding most_restrictive answers
  most_restrictive-attained n [] s best b e = inl e
  most_restrictive-attained n (c ∷ cs) s best b e =
      let (s', r) = ask backend others false s c in
      elim (most_restrictive-attained (suc n) cs (others n s')
        (some (tighter backend others r best)) b e) [
          | inl same ↦ elim (tighter-one_of r best) [
            | inl kept ↦ inl (kept ∙ same)
            | inr taken ↦
                inr (r, inl refl, sym (ap (λ t. t.remaining) (some-injective same)) ∙ taken)
          ]
          | inr (r', there, at) ↦ inr (r', inr there, at)
        ]

  most_restrictive-found :
      (n : ℕ) (cs : List RateLimitCheck) (s : S) (best : RateLimitCheckResult)
      → (most_restrictive backend others n cs s (some best)).1 ≢ none
  unfolding most_restrictive
  most_restrictive-found n [] s best e = ground arith
  most_restrictive-found n (c ∷ cs) s best e =
      let (s', r) = ask backend others false s c in
      most_restrictive-found (suc n) cs (others n s') (tighter backend others r (some best)) e

  no_answers :
      (n : ℕ) (cs : List RateLimitCheck) (s : S)
      → (most_restrictive backend others n cs s none).1 ≡ none
      → answers false n cs s ≡ []
  unfolding most_restrictive answers
  no_answers n [] s e = refl
  no_answers n (c ∷ cs) s e =
      let (s', r) = ask backend others false s c in
      absurd (most_restrictive-found (suc n) cs (others n s') (tighter backend others r none) e)

  no_checks :
      (n : ℕ) (cs : List RateLimitCheck) (s : S)
      → (most_restrictive backend others n cs s none).1 ≡ none
      → cs ≡ []
  unfolding most_restrictive
  no_checks n [] s e = refl
  no_checks n (c ∷ cs) s e =
      let (s', r) = ask backend others false s c in
      absurd (most_restrictive-found (suc n) cs (others n s') (tighter backend others r none) e)

  unlimited-result :
      (cs : List RateLimitCheck) (mode : Bool) (now : ℕ) (s s' : S) (n : ℕ)
      → first_refusal backend others mode 0 cs s ≡ (s', (n, none))
      → (most_restrictive backend others n cs s' none).1 ≡ none
      → (evaluate_checks backend others cs mode now s).1.remaining ≡ infinity
  unfolding evaluate_checks
  unlimited-result cs mode now s s' n e found = ground arith

  passed-result :
      (cs : List RateLimitCheck) (mode : Bool) (now : ℕ) (s s' : S) (n : ℕ)
      (b : RateLimitCheckResult)
      → first_refusal backend others mode 0 cs s ≡ (s', (n, none))
      → (most_restrictive backend others n cs s' none).1 ≡ some b
      → (evaluate_checks backend others cs mode now s).1 ≡ b
  unfolding evaluate_checks
  passed-result cs mode now s s' n b e found = ground arith

  passed-outcome :
      (cs : List RateLimitCheck) (mode : Bool) (now : ℕ) (s s' : S) (n : ℕ)
      → first_refusal backend others mode 0 cs s ≡ (s', (n, none))
      → (r : RateLimitResult) → Elem r (answers false n cs s')
      → AtMost (evaluate_checks backend others cs mode now s).1.remaining (finite r.remaining)
  unfolding evaluate_checks
  passed-outcome cs mode now s s' n e r m =
      elim (Option-cases (most_restrictive backend others n cs s' none).1) [
        | inl empty ↦ absurd (subst (Elem r) (no_answers n cs s' empty) m)
        | inr (b, found) ↦
            subst (λ x. AtMost x.remaining (finite r.remaining))
              (sym (passed-result cs mode now s s' n b e found))
              ((most_restrictive-least n cs s' none b found).1 r m)
      ]

  -- What the second look at the checks reports for the row: one of their answers, or no limit if there are
  -- no checks.
  abbrev pub IsAttained : Amount → List RateLimitCheck → List RateLimitResult → Type 0
  IsAttained a cs rs =
      ((cs ≡ []) × (a ≡ infinity)) ⊎ ((r : RateLimitResult) × Elem r rs × (a ≡ finite r.remaining))

  passed-IsAttained :
      (cs : List RateLimitCheck) (mode : Bool) (now : ℕ) (s s' : S) (n : ℕ)
      → first_refusal backend others mode 0 cs s ≡ (s', (n, none))
      → IsAttained
          (evaluate_checks backend others cs mode now s).1.remaining
          cs
          (answers false n cs s')
  passed-IsAttained cs mode now s s' n e =
      elim (Option-cases (most_restrictive backend others n cs s' none).1) [
        | inl empty ↦ inl (no_checks n cs s' empty, unlimited-result cs mode now s s' n e empty)
        | inr (b, found) ↦
            let same = ap (λ t. t.remaining) (passed-result cs mode now s s' n b e found) in
            elim (most_restrictive-attained n cs s' none b found) [
              | inl start ↦ absurd (ground (arith, start))
              | inr (r, there, at) ↦ inr (r, there, same ∙ at)
            ]
      ]

  -- A row without a refusal starts with a grant, and goes on without one.
  pub first_refusal-none_iff :
      (mode : Bool) (n : ℕ) (c : RateLimitCheck) (cs : List RateLimitCheck) (s : S)
      → ((first_refusal backend others mode n (c ∷ cs) s).1.1 ≡ none) ↔ (
          ((ask backend others mode s c).1.allowed ≡ true)
          × ((first_refusal backend others mode
                (suc n)
                cs
                (others n (ask backend others mode s c).0)).1.1
              ≡ none))
  unfolding first_refusal
  first_refusal-none_iff mode n c cs s = ground arith

  -- If the request is allowed, there is no refusal.
  pub allowed-passed :
      (cs : List RateLimitCheck) (mode : Bool) (now : ℕ) (s : S)
      → (evaluate_checks backend others cs mode now s).1.allowed ≡ true
      → (first_refusal backend others mode 0 cs s).1.1 ≡ none
  allowed-passed cs mode now s h =
      elim (Option-cases (first_refusal backend others mode 0 cs s).1.1) [
        | inl none_refused ↦ none_refused
        | inr (result, e) ↦
            let stop = stops mode 0 cs s result e in
            absurd
              (ground (arith, refused-outcome cs mode now s _ _ _ stop.outcome, stop.refusal, h))
      ]

  -- An evaluation that allows the request was granted by the backend at every check, and what it says
  -- remains is the least of what the second look at the checks says: at most each of these answers, and
  -- one of them. Without checks nothing limits it.
  pub evaluate_checks-allowed :
      (cs : List RateLimitCheck) (mode : Bool) (now : ℕ) (s : S)
      → (evaluate_checks backend others cs mode now s).1.allowed ≡ true
      → let remaining = (evaluate_checks backend others cs mode now s).1.remaining in
        let second_look = answers false (length cs) cs (after mode 0 cs s) in
        ((r : RateLimitResult) → Elem r (answers mode 0 cs s) → r.allowed ≡ true)
        × ((r : RateLimitResult) → Elem r second_look → AtMost remaining (finite r.remaining))
        × IsAttained remaining cs second_look
  evaluate_checks-allowed cs mode now s h =
      let (all, same) = passes mode 0 cs s (allowed-passed cs mode now s h) in
      (
        all,
        λ r m. passed-outcome cs mode now s _ _ same r (
            subst (λ k. Elem r (answers false k cs (after mode 0 cs s)))
              (sym (zero_plus (length cs))) m),
        subst
            (λ k.
              IsAttained (evaluate_checks backend others cs mode now s).1.remaining cs
                (answers false k cs (after mode 0 cs s)))
            (zero_plus (length cs)) (passed-IsAttained cs mode now s _ _ same),
      )
