-- ===== src/Inflight/SingleFlight.antt =====
-- The entries in flight are those of the promises that are not settled, one for each key.
use mcp_conduit.Base.{
  ℕ, ◌<◌, ◌≡◌, ◌↔◌, refl, ap, Bool, true, false, List, [], ◌∷◌, arith, Option, none, some,
  ℕ_discrete,
}
use mcp_conduit.Base.JsMap
use mcp_conduit.Base.Text.{Text, text_dec}
use mcp_conduit.Inflight.{
  InflightEntry, InflightTracker, create, awaits_shared, coalesce, ask, deduplicate, forget, settle,
  Event, asks, settles, step, run,
}

abbrev pub promise_of : Option InflightEntry → Option ℕ
promise_of none = none
promise_of (some e) = some e.promise

abbrev pub Entered : InflightTracker → Type 0
Entered t =
    (k : Text) (p : ℕ)
    → promise_of (JsMap.get text_dec k t.inflight) ≡ some p
    → JsMap.get ℕ_discrete p t.running ≡ some k

abbrev pub Tracked : InflightTracker → Type 0
Tracked t =
    (k : Text) (p : ℕ)
    → JsMap.get ℕ_discrete p t.running ≡ some k
    → promise_of (JsMap.get text_dec k t.inflight) ≡ some p

-- The map names, for each key, the one promise of that key that is not settled.
abbrev pub IsTracked : InflightTracker → Type 0
IsTracked t =
    JsMap.Distinct text_dec t.inflight
    × JsMap.Distinct ℕ_discrete t.running
    × ((k : Text) (p : ℕ) → JsMap.get ℕ_discrete p t.running ≡ some k → p < t.promises)
    × Entered t
    × Tracked t

forget-IsTracked :
    (t : InflightTracker) (p : ℕ) (found : Option Text)
    → JsMap.get ℕ_discrete p t.running ≡ found
    → IsTracked t
    → IsTracked (forget t p found)
unfolding forget
forget-IsTracked t p none e l = l
forget-IsTracked t p (some key) e (di, dr, below, entered, tracked) = (
  JsMap.delete-Distinct text_dec key t.inflight di,
  JsMap.delete-Distinct ℕ_discrete p t.running dr,
  (λ k q h. ground (arith, below k q, JsMap.get-delete ℕ_discrete q p t.running dr)),
  (λ k q h. ground (
    arith,
    e,
    entered k q,
    JsMap.get-delete text_dec k key t.inflight di,
    JsMap.get-delete ℕ_discrete q p t.running dr,
  )),
  (λ k q h. ground (
    arith,
    tracked k q,
    tracked key p e,
    JsMap.get-delete text_dec k key t.inflight di,
    JsMap.get-delete ℕ_discrete q p t.running dr,
  )),
)

ask-IsTracked :
    (t : InflightTracker) (key : Text) (throws : Bool) (now : ℕ) (found : Option InflightEntry)
    → JsMap.get text_dec key t.inflight ≡ found
    → IsTracked t
    → IsTracked (ask t key throws now found).0
unfolding ask coalesce
ask-IsTracked t key throws now (some x) e (di, dr, below, entered, tracked) = (
  JsMap.put-Distinct text_dec key _ t.inflight di,
  dr,
  below,
  (λ k q h.
      ground (
        arith,
        ap promise_of e,
        entered k q,
        JsMap.get-put text_dec k key (coalesce x) t.inflight,
      )),
  (λ k q h.
      ground (
        arith,
        ap promise_of e,
        tracked k q,
        JsMap.get-put text_dec k key (coalesce x) t.inflight,
      )),
)
ask-IsTracked t key true now none e l = l
ask-IsTracked t key false now none e (di, dr, below, entered, tracked) =
    let x : InflightEntry = record { promise = t.promises; started_at = now; coalesced = 0 } in
    (
      JsMap.put-Distinct text_dec key _ t.inflight di,
      JsMap.put-Distinct ℕ_discrete _ key t.running dr,
      (λ k q h. ground (arith, below k q, JsMap.get-put ℕ_discrete q t.promises key t.running)),
      (λ k q h. ground (
        arith,
        below k q,
        entered k q,
        JsMap.get-put ℕ_discrete q t.promises key t.running,
        JsMap.get-put text_dec k key x t.inflight,
      )),
      (λ k q h. ground (
        arith,
        ap promise_of e,
        tracked k q,
        JsMap.get-put ℕ_discrete q t.promises key t.running,
        JsMap.get-put text_dec k key x t.inflight,
      )),
    )

step-IsTracked : (t : InflightTracker) (e : Event) → IsTracked t → IsTracked (step t e)
unfolding step deduplicate settle
step-IsTracked t (asks key throws now) l = ask-IsTracked t key throws now _ refl l
step-IsTracked t (settles p) l = forget-IsTracked t p _ refl l

run-IsTracked : (t : InflightTracker) (es : List Event) → IsTracked t → IsTracked (run t es)
unfolding run
run-IsTracked t [] l = l
run-IsTracked t (e ∷ es) l = run-IsTracked (step t e) es (step-IsTracked t e l)

create-IsTracked : IsTracked create
unfolding create
create-IsTracked = (
  tt,
  tt,
  (λ k p h. ground (arith, JsMap.get-nil {V = Text} ℕ_discrete p)),
  (λ k p h. ground (arith, JsMap.get-nil {V = InflightEntry} text_dec k)),
  (λ k p h. ground (arith, JsMap.get-nil {V = Text} ℕ_discrete p)),
)

shares_iff :
    (t : InflightTracker) (key : Text) (throws : Bool) (now p : ℕ) (found : Option InflightEntry)
    → JsMap.get text_dec key t.inflight ≡ found
    → ((ask t key throws now found).1 ≡ awaits_shared p) ↔ (promise_of found ≡ some p)
unfolding ask
shares_iff t key throws now p (some x) e = ground arith
shares_iff t key true now p none e = ground arith
shares_iff t key false now p none e = ground arith

-- A caller of deduplicate for a key waits for the promise p of an earlier caller exactly when p is a
-- promise of that key whose factory has not settled, whatever has been asked and settled before.
pub deduplicate-shares :
    (es : List Event) (key : Text) (throws : Bool) (now p : ℕ)
    → let t = run create es in
      ((deduplicate t key throws now).1 ≡ awaits_shared p)
      ↔ (JsMap.get ℕ_discrete p t.running ≡ some key)
unfolding deduplicate
deduplicate-shares es key throws now p =
    let t = run create es in
    let (di, dr, below, entered, tracked) = run-IsTracked create es create-IsTracked in
    let shares = shares_iff t key throws now p _ refl in
    ((λ a. entered key p (shares.0 a)), (λ r. shares.1 (tracked key p r)))
