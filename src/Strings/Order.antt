-- ===== src/Strings/Order.antt =====
-- The order of strings is a strict total order.
use go_sdk.Prelude.{◌≡◌, refl, true, false, [], ◌∷◌, Text, arith}
use go_sdk.Strings.{text_less}

pub text_less_irrefl : (a : Text) → text_less a a ≡ false
unfolding text_less
text_less_irrefl [] = refl
text_less_irrefl (c ∷ a) = ground (arith, text_less_irrefl a)

pub text_less_asymm : (a b : Text) → text_less a b ≡ true → text_less b a ≡ false
unfolding text_less
text_less_asymm a [] h = cc
text_less_asymm [] (d ∷ b) h = refl
text_less_asymm (c ∷ a) (d ∷ b) h = ground (arith, text_less_asymm a b)

-- What lies above a text that is not above another lies above that one.
pub text_less_weak :
    (a b c : Text) → text_less a b ≡ true → text_less c b ≡ false → text_less a c ≡ true
unfolding text_less
text_less_weak a [] c h k = cc
text_less_weak [] (x ∷ b) [] h k = cc
text_less_weak [] (x ∷ b) (y ∷ c) h k = refl
text_less_weak (z ∷ a) (x ∷ b) [] h k = cc
text_less_weak (z ∷ a) (x ∷ b) (y ∷ c) h k = ground (arith, text_less_weak a b c)

-- Neither of two texts is below the other only if they are the same.
pub text_less_total : (a b : Text) → text_less a b ≡ false → text_less b a ≡ false → a ≡ b
unfolding text_less
text_less_total [] [] h k = refl
text_less_total [] (d ∷ b) h k = cc
text_less_total (c ∷ a) [] h k = cc
text_less_total (c ∷ a) (d ∷ b) h k = ground (arith, text_less_total a b)
