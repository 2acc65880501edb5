-- ===== src/Lease/Budget.antt =====
-- lease.go: `ParseBudgetAmount` and the currency test.
pub mod Grammar
use go_sdk.Prelude.{
  ℕ, zero, suc, ◌+◌, ◌-◌, Bool, true, false, not, ◌&&◌, ◌||◌, List, [], ◌∷◌, Option, none, some,
  Text, codes, text_beq, leb, ltb, nat_beq, length, take, drop, if◌then◌else◌,
}
use go_sdk.Strings.{index}
use go_sdk.Errors.{Error, fail, invalid_request, says}
use go_sdk.Lease.{Floats, Currency}

unfoldable pub all_between : ℕ → ℕ → Text → Bool
all_between lo hi [] = true
all_between lo hi (r ∷ s) = if ltb r lo || ltb hi r then false else all_between lo hi s

unfoldable pub all_uppercase_letters : Text → Bool
all_uppercase_letters s = if all_between b'A' b'Z' s then ltb 0 (length s) else false

unfoldable pub all_lowercase_letters : Text → Bool
all_lowercase_letters s = if all_between b'a' b'z' s then ltb 0 (length s) else false

-- The loop of `isCurrency` over the bytes that are left; `s` is the whole text.
unfoldable pub currency_loop : Text → Text → Bool
currency_loop s [] = true
currency_loop s (r ∷ rest) =
    if ltb r b'A' || ltb b'Z' r
    then all_uppercase_letters s || all_lowercase_letters s
    else currency_loop s rest

unfoldable pub is_currency : Text → Bool
is_currency s =
    if text_beq s (codes "credits")
    then true
    else if ltb (length s) 1
    then false
    else currency_loop s s

pub data Parsed {ℓ} (A : Type ℓ) : Type ℓ where
  ok : A → Parsed A
  bad : Error → Parsed A

module _ (fl : Floats) where
  open fl use {Float, zero_f, less, parse_float}

  pub record BudgetAmount : Type 0 where
    pub currency : Currency
    pub value : Float

  -- The value and its sign, once the currency is accepted.
  unfoldable pub parse_value : Currency → Option Float → Parsed BudgetAmount
  parse_value cur none = bad (fail invalid_request (says "budget value not a decimal"))
  parse_value cur (some v) =
      if less v zero_f
      then bad (fail invalid_request (says "budget value must be non-negative"))
      else ok (record { currency = cur; value = v })

  unfoldable pub parse_at : Text → Option ℕ → Parsed BudgetAmount
  unfolding parse_value
  parse_at s none = bad (fail invalid_request (says "budget amount must be CUR:decimal"))
  parse_at s (some i) =
      if nat_beq i 0 || nat_beq i (length s - 1)
      then bad (fail invalid_request (says "budget amount must be CUR:decimal"))
      else if not (is_currency (take i s))
      then bad (fail invalid_request (says "budget currency must be uppercase A-Z or \"credits\""))
      else parse_value (take i s) (parse_float (drop (i + 1) s))

  unfoldable pub parse_budget_amount : Text → Parsed BudgetAmount
  unfolding parse_at
  parse_budget_amount s = parse_at s (index s (codes ":"))
