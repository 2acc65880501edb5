-- ===== src/Strings.antt =====
-- The functions of Go's package strings that the SDK calls, over byte strings.
pub mod Search
pub mod Order
use go_sdk.Prelude.{
  ℕ, suc, ◌+◌, ◌-◌, Bool, true, false, ◌&&◌, List, [], ◌∷◌, Option, none, some, Text, nat_beq,
  text_beq, ltb, leb, if◌then◌else◌, length, drop,
}

-- Puts a byte in front of the first piece.
abbrev pub cons_head : ℕ → List Text → List Text
cons_head x [] = (x ∷ []) ∷ []
cons_head x (w ∷ ws) = (x ∷ w) ∷ ws

-- strings.Split at a separator of one byte.
unfoldable pub split : ℕ → Text → List Text
split sep [] = [] ∷ []
split sep (x ∷ s) = let rest = split sep s in if nat_beq x sep then [] ∷ rest else cons_head x rest

-- strings.Contains at a substring of one byte.
unfoldable pub has_byte : ℕ → Text → Bool
has_byte c [] = false
has_byte c (x ∷ s) = if nat_beq x c then true else has_byte c s

-- strings.HasPrefix.
unfoldable pub has_prefix : Text → Text → Bool
has_prefix s [] = true
has_prefix [] (c ∷ p) = false
has_prefix (x ∷ s) (c ∷ p) = nat_beq x c && has_prefix s p

-- strings.HasSuffix.
unfoldable pub has_suffix : Text → Text → Bool
has_suffix s suffix =
    leb (length suffix) (length s) && text_beq (drop (length s - length suffix) s) suffix

abbrev pub shift : Option ℕ → Option ℕ
shift none = none
shift (some i) = some (suc i)

-- strings.Index, with `none` for -1.
unfoldable pub index : Text → Text → Option ℕ
index [] sub = if has_prefix [] sub then some 0 else none
index (x ∷ s) sub = let rest = index s sub in if has_prefix (x ∷ s) sub then some 0 else shift rest

-- Go's order of strings, by bytes.
unfoldable pub text_less : Text → Text → Bool
text_less a [] = false
text_less [] (d ∷ b) = true
text_less (c ∷ a) (d ∷ b) = if nat_beq c d then text_less a b else ltb c d
