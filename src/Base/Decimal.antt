-- ===== src/Base/Decimal.antt =====
-- A number as text, as a template string writes it.
use Prim.Native.Nat.{ℕ, zero, suc, ◌+◌, ◌-◌, ◌*◌, ◌/◌, ◌%◌, ◌<◌, ◌≤◌}
use mathlib.Core.Path.{◌≡◌, ◌∙◌, sym, ap}
use mathlib.Core.Logic.{inl, inr}
use mathlib.Core.List.{[], ◌∷◌}
use native.Mathlib.Omega.{arith}
use mcp_conduit.Base.Lists.{All}
use mcp_conduit.Base.Tests.{ltb, if◌then◌else◌, Bool-cases}
use mcp_conduit.Base.Text.{Text}

-- The digits of `n` in front of `acc`; the fuel is never used up where it is above `n`.
decimal_from : ℕ → ℕ → Text → Text
decimal_from zero n acc = acc
decimal_from (suc f) n acc =
    let more = decimal_from f (n / 10) ((48 + n % 10) ∷ acc) in
    if ltb n 10 then (48 + n) ∷ acc else more

unfoldable pub decimal : ℕ → Text
unfolding decimal_from
decimal n = decimal_from (suc n) n []

-- Digits read back.
read_from : ℕ → Text → ℕ
read_from v [] = v
read_from v (d ∷ ds) = read_from (v * 10 + (d - 48)) ds

read-decimal_from :
    (f n : ℕ) (acc : Text) → n < f → read_from 0 (decimal_from f n acc) ≡ read_from n acc
unfolding read_from decimal_from
read-decimal_from zero n acc h = elim h [ ]
read-decimal_from (suc f) n acc h = elim (Bool-cases (ltb n 10)) [
  | inl small ↦ rw small (ap (λ (v : ℕ). read_from v acc) (omega arith))
  | inr large ↦ rw large (
      read-decimal_from f (n / 10) ((48 + n % 10) ∷ acc) (ground arith)
      ∙ ap (λ (v : ℕ). read_from v acc) (omega arith))
]

pub decimal-injective : (m n : ℕ) → decimal m ≡ decimal n → m ≡ n
unfolding decimal read_from
decimal-injective m n e =
    sym (read-decimal_from (suc m) m [] (omega arith))
    ∙ ap (read_from 0) e
    ∙ read-decimal_from (suc n) n [] (omega arith)

decimal_from-digits :
    (f n : ℕ) (acc : Text)
    → All (λ c. (48 ≤ c) × (c < 58)) acc
    → All (λ c. (48 ≤ c) × (c < 58)) (decimal_from f n acc)
unfolding decimal_from
decimal_from-digits zero n acc h = h
decimal_from-digits (suc f) n acc h = elim (Bool-cases (ltb n 10)) [
  | inl small ↦ rw small (ground arith, h)
  | inr large ↦ rw large (decimal_from-digits f (n / 10) ((48 + n % 10) ∷ acc) (omega arith, h))
]

-- Every character is a digit.
pub decimal-digits : (n : ℕ) → All (λ c. (48 ≤ c) × (c < 58)) (decimal n)
unfolding decimal
decimal-digits n = decimal_from-digits (suc n) n [] tt
