-- ===== src/Queue/Ticks.antt =====
-- What a tick of the timer does for one key of the queue of src/rate-limit/queue.ts.
use mcp_conduit.Base.{
  ℕ, zero, suc, ◌∙◌, ◌≡◌, ◌⊎◌, refl, ap, Bool, true, false, not, List, [], ◌∷◌, ◌++◌, map, keep,
  length, arith, leb, ltb, inl, inr, Bool-cases,
}
use mcp_conduit.Base.Text.{Text}
use mcp_conduit.RateLimiter.{RateLimitBackend}
use mcp_conduit.Queue.{
  QueueEntry, QueueKeyState, Outcome, timed_out, resolved, as_outcomes, expired, is_live,
  grant_waiting, process_key,
}
use mcp_conduit.Queue.Polling.{grant_waiting-split}

is_live-late : (now : ℕ) (e : QueueEntry) → not (is_live now e) ≡ leb e.deadline now
is_live-late now e = ground arith

keep-ext :
    {A : Type 0} (p q : A → Bool) (xs : List A) → ((x : A) → p x ≡ q x) → keep p xs ≡ keep q xs
keep-ext p q [] h = refl
keep-ext p q (x ∷ xs) h = ground (arith, h x, keep-ext p q xs h)

as_outcomes-map :
    (f : ℕ → Outcome) (es : List QueueEntry)
    → as_outcomes f es ≡ map (λ (e : QueueEntry). f e.id) es
as_outcomes-map f [] = refl
as_outcomes-map f (e ∷ es) = ap (λ l. f e.id ∷ l) (as_outcomes-map f es)

module _ {S : Type 0} (limiter : RateLimitBackend S) (key : Text) (limit w : ℕ) where
  -- The limiter after `n` requests were checked and consumed.
  abbrev pub turns : ℕ → S → S
  turns zero s = s
  turns (suc n) s = turns n (limiter.consume (limiter.check s key limit w).0 key limit w).0

  -- Each of the next `n` checks allows its request, which is consumed before the next check.
  abbrev pub AllowsNext : ℕ → S → Type 0
  AllowsNext zero s = Unit
  AllowsNext (suc n) s =
      ((limiter.check s key limit w).1.allowed ≡ true)
      × AllowsNext n (limiter.consume (limiter.check s key limit w).0 key limit w).0

  -- The limiter allows the `granted` requests one by one, and does not allow the first of those that are
  -- left, if there are any.
  abbrev pub StopsAt : List QueueEntry → List QueueEntry → S → S → Type 0
  StopsAt granted left s s' =
      AllowsNext (length granted) s
      × (((left ≡ []) × (s' ≡ turns (length granted) s))
          ⊎ (((limiter.check (turns (length granted) s) key limit w).1.allowed ≡ false)
              × (s' ≡ (limiter.check (turns (length granted) s) key limit w).0)))

  grant_waiting-StopsAt :
      (es : List QueueEntry) (s : S)
      → let (s', (granted, left)) = grant_waiting limiter key limit w es s in
        StopsAt granted left s s'
  unfolding grant_waiting
  grant_waiting-StopsAt [] s = (tt, inl (refl, refl))
  grant_waiting-StopsAt (e ∷ es) s =
      let (s1, answer) = limiter.check s key limit w in
      let (s2, consumed) = limiter.consume s1 key limit w in
      elim (Bool-cases answer.allowed) [
        | inl ok ↦ let (all, stop) = grant_waiting-StopsAt es s2 in rw ok ((ok, all), stop)
        | inr stop ↦ rw stop (tt, inr (stop, refl))
      ]

  -- A tick rejects the requests of a key whose deadline has come and then lets the first of the others go
  -- on, all in the order in which they came; the rest stays in its order. Those that go on are as many
  -- as the limiter allows one after the other, each consumed before the next is checked: it stops at the
  -- first that is not allowed. No request is lost or answered twice.
  pub process_key-order :
      (now : ℕ) (entries : List QueueEntry) (s : S)
      → let state : QueueKeyState = record { entries = entries; limit = limit; window_ms = w } in
        let (s', (outcomes, left)) = process_key limiter now key state s in
        (granted : List QueueEntry) × (granted ++ left ≡ keep (λ e. ltb now e.deadline) entries)
        × StopsAt granted left s s'
        × (outcomes
            ≡ map (λ e. timed_out e.id) (keep (λ e. leb e.deadline now) entries)
              ++ map (λ e. resolved e.id) granted)
  unfolding process_key
  process_key-order now entries s =
      let live = keep (is_live now) entries in
      let granted = (grant_waiting limiter key limit w live s).1.0 in
      (
        granted,
        grant_waiting-split limiter key limit w live s,
        grant_waiting-StopsAt live s,
        ap (λ l. l ++ as_outcomes resolved granted)
              (as_outcomes-map timed_out (expired now entries))
            ∙ ap (λ l. map (λ (e : QueueEntry). timed_out e.id) l ++ as_outcomes resolved granted)
                (keep-ext (λ e. not (is_live now e)) (λ e. leb e.deadline now) entries
                  (is_live-late now))
            ∙ ap
                (λ l.
                  map (λ (e : QueueEntry). timed_out e.id) (keep (λ e. leb e.deadline now) entries)
                  ++ l)
                (as_outcomes-map resolved granted),
      )
