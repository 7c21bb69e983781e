-- ===== src/Base/Text.antt =====
-- JavaScript strings as lists of UTF-16 code units.
use Prim.Native.Char.{code}
use Prim.Native.String.{String}
use Prim.Native.Nat.{ℕ}
use mathlib.Core.Path.{◌≡◌, refl}
use mathlib.Core.Bool.{Bool, true, false, ◌&&◌}
use mathlib.Core.List.{List, [], ◌∷◌, ◌++◌}
use mathlib.Core.Logic.{◌↔◌}
use native.Mathlib.Omega.{arith}
use native.Mathlib.Decide.{ℕ_discrete}
use mcp_conduit.Base.Lists.{length, drop}
use mcp_conduit.Base.Tests.{is}

abbrev pub Text : Type 0
Text = List ℕ

-- The code units of a literal in ASCII.
abbrev pub codes : String → Text
codes String.[] = []
codes (String.◌∷◌ c s) = code c ∷ codes s

-- `a === b`
unfoldable pub text_dec : Discrete Text
text_dec = hlevel ℕ_discrete

-- `value.startsWith(prefix)`
unfoldable pub starts_with : Text → Text → Bool
starts_with [] value = true
starts_with (c ∷ prefix) [] = false
starts_with (c ∷ prefix) (d ∷ value) = is (ℕ_discrete c d) && starts_with prefix value

starts_with-drop :
    (prefix value : Text)
    → starts_with prefix value ≡ true
    → value ≡ prefix ++ drop (length prefix) value
unfolding starts_with
starts_with-drop [] value h = refl
starts_with-drop (c ∷ prefix) [] h = cc
starts_with-drop (c ∷ prefix) (d ∷ value) h = ground (arith, starts_with-drop prefix value)

pub starts_with-append : (prefix rest : Text) → starts_with prefix (prefix ++ rest) ≡ true
unfolding starts_with
starts_with-append [] rest = refl
starts_with-append (c ∷ prefix) rest = ground (arith, starts_with-append prefix rest)

-- A text starts with a prefix exactly when it is the prefix followed by something.
pub starts_with_iff :
    (prefix value : Text)
    → (starts_with prefix value ≡ true) ↔ ((rest : Text) × (value ≡ prefix ++ rest))
starts_with_iff prefix value = (
  λ h. (drop (length prefix) value, starts_with-drop prefix value h),
  λ (rest, e). rw e (starts_with-append prefix rest),
)
