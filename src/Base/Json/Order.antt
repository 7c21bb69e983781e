-- ===== src/Base/Json/Order.antt =====
-- The order of strings is a strict total order.
use mcp_conduit.Base.Json.{text_ltb}
use mcp_conduit.Base.Text.{Text}
use mathlib.Core.Path.{◌≡◌, refl}
use mathlib.Core.Bool.{true, false}
use mathlib.Core.List.{[], ◌∷◌}
use native.Mathlib.Omega.{arith}

pub text_ltb_asym : (a b : Text) → text_ltb a b ≡ true → text_ltb b a ≡ false
unfolding text_ltb
text_ltb_asym a [] h = ground arith
text_ltb_asym [] (d ∷ b) h = refl
text_ltb_asym (c ∷ a) (d ∷ b) h = ground (arith, text_ltb_asym a b)

pub text_ltb_trans :
    (a b c : Text) → text_ltb a b ≡ true → text_ltb b c ≡ true → text_ltb a c ≡ true
unfolding text_ltb
text_ltb_trans a b [] h k = ground arith
text_ltb_trans [] b (e ∷ c) h k = refl
text_ltb_trans (x ∷ a) [] (e ∷ c) h k = ground arith
text_ltb_trans (x ∷ a) (d ∷ b) (e ∷ c) h k = ground (arith, text_ltb_trans a b c)

pub text_ltb_total : (a b : Text) → text_ltb a b ≡ false → text_ltb b a ≡ false → a ≡ b
unfolding text_ltb
text_ltb_total [] [] h k = refl
text_ltb_total (c ∷ a) [] h k = ground arith
text_ltb_total [] (d ∷ b) h k = ground arith
text_ltb_total (c ∷ a) (d ∷ b) h k = ground (arith, text_ltb_total a b)
