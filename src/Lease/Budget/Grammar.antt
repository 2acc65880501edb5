-- ===== src/Lease/Budget/Grammar.antt =====
-- The grammar that `ParseBudgetAmount` accepts: currency, colon, decimal.
use go_sdk.Prelude.{
  ℕ, ◌+◌, ◌-◌, ◌≤◌, All, ◌≢◌, ◌≡◌, refl, sym, ◌∙◌, ◌↔◌, inl, inr, true, false, ◌||◌, [], ◌∷◌, ◌++◌,
  Option, none, some, arith, Text, codes, text_beq, text_beq_iff, text_eq, Bool-cases, or_iff, ◌<◌,
  ◌⊎◌, Option-cases, length, take, drop, length-append, length-drop, nat_beq, nat_eq, ne_of_beq,
  subst,
}
use go_sdk.Strings.{has_byte, index}
use go_sdk.Strings.Search.{
  take-length, drop-after, index_byte_sound, index_byte_complete, index_lt_length,
}
use go_sdk.Lease.{Floats, Currency}
use go_sdk.Lease.Budget.{
  all_between, all_uppercase_letters, all_lowercase_letters, currency_loop, is_currency, ok,
  BudgetAmount, parse_value, parse_at, parse_budget_amount,
}

currency_loop_lem :
    (s rest : Text)
    → currency_loop s rest
      ≡ (all_between b'A' b'Z' rest || (all_uppercase_letters s || all_lowercase_letters s))
unfolding currency_loop all_between
currency_loop_lem s [] = refl
currency_loop_lem s (r ∷ rest) = ground (arith, currency_loop_lem s rest)

credits_letters :
    is_currency (codes "credits")
    ≡ (all_uppercase_letters (codes "credits") || all_lowercase_letters (codes "credits"))
unfolding is_currency all_uppercase_letters all_lowercase_letters all_between text_beq
credits_letters = refl

-- A currency is a non-empty run of uppercase letters or a non-empty run of lowercase letters; the
-- reserved word "credits" is one of the latter.
pub is_currency-letters :
    (s : Text) → is_currency s ≡ (all_uppercase_letters s || all_lowercase_letters s)
unfolding is_currency all_uppercase_letters all_lowercase_letters
is_currency-letters [] = ground (arith, text_beq_iff [] (codes "credits"))
is_currency-letters (r ∷ s) = elim (Bool-cases (text_beq (r ∷ s) (codes "credits"))) [
  | inl e ↦
      subst (λ t. is_currency t ≡ (all_uppercase_letters t || all_lowercase_letters t))
        (sym ((text_beq_iff (r ∷ s) _).0 e)) credits_letters
  | inr e ↦ ground (arith, currency_loop_lem (r ∷ s) (r ∷ s))
]

all_between-colon :
    (lo hi : ℕ) (s : Text)
    → b':' < lo ⊎ hi < b':'
    → all_between lo hi s ≡ true
    → has_byte b':' s ≡ false
unfolding all_between has_byte
all_between-colon lo hi [] h e = refl
all_between-colon lo hi (r ∷ s) h e = ground (arith, all_between-colon lo hi s h)

-- A currency holds no colon and is not empty.
is_currency-colon : (s : Text) → is_currency s ≡ true → (has_byte b':' s ≡ false) × (0 < length s)
unfolding all_uppercase_letters all_lowercase_letters
is_currency-colon s h = letters ((or_iff _ _).0 (sym (is_currency-letters s) ∙ h))
  where
    letters :
        (all_uppercase_letters s ≡ true) ⊎ (all_lowercase_letters s ≡ true)
        → (has_byte b':' s ≡ false) × (0 < length s)
    letters (inl u) =
        (all_between-colon b'A' b'Z' s (inl (omega arith)) (ground arith), ground arith)
    letters (inr l) =
        (all_between-colon b'a' b'z' s (inl (omega arith)) (ground arith), ground arith)

-- A non-empty run of uppercase letters or a non-empty run of lowercase letters.
abbrev pub IsCurrency : Text → Type 0
IsCurrency s =
    (s ≢ []) × (All (λ c. (b'A' ≤ c) × (c ≤ b'Z')) s ⊎ All (λ c. (b'a' ≤ c) × (c ≤ b'z')) s)

all_between-All :
    (lo hi : ℕ) (s : Text) → (all_between lo hi s ≡ true) ↔ All (λ c. (lo ≤ c) × (c ≤ hi)) s
unfolding all_between
all_between-All lo hi [] = (λ h. tt, λ h. refl)
all_between-All lo hi (c ∷ s) = ground (arith, all_between-All lo hi s)

is_currency_iff : (s : Text) → (is_currency s ≡ true) ↔ IsCurrency s
unfolding all_uppercase_letters all_lowercase_letters
is_currency_iff s = rw (is_currency-letters s) (letters s)
  where
    letters :
        (s : Text) → ((all_uppercase_letters s || all_lowercase_letters s) ≡ true) ↔ IsCurrency s
    letters [] = (λ h. absurd (ground arith), λ h. absurd (h.0 refl))
    letters (c ∷ s) =
        ground (arith, all_between-All b'A' b'Z' (c ∷ s), all_between-All b'a' b'z' (c ∷ s))

module _ (fl : Floats) where
  open fl use {Float, zero_f, less, parse_float}

  -- What an accepted text is.
  pub record IsAmount (s : Text) (a : BudgetAmount fl) : Type 0 where
    pub decimal : Text
    pub whole : s ≡ a.currency ++ b':' ∷ decimal
    pub currency_ok : IsCurrency a.currency
    pub some_decimal : 0 < length decimal
    pub value_of : parse_float decimal ≡ some a.value
    pub not_negative : less a.value zero_f ≡ false

  parse_value_ok :
      (cur : Currency) (v : Option Float) (a : BudgetAmount fl)
      → parse_value fl cur v ≡ ok a
      → (a.currency ≡ cur) × (v ≡ some a.value) × (less a.value zero_f ≡ false)
  unfolding parse_value
  parse_value_ok cur none a h = absurd (ground arith)
  parse_value_ok cur (some v) a h = ground arith

  parse_at_ok :
      (s : Text) (i : ℕ) (a : BudgetAmount fl)
      → parse_at fl s (some i) ≡ ok a
      → (nat_beq i (length s - 1) ≡ false)
        × (is_currency (take i s) ≡ true)
        × (parse_value fl (take i s) (parse_float (drop (i + 1) s)) ≡ ok a)
  unfolding parse_at
  parse_at_ok s i a h = ground arith

  parse_budget_amount_sound :
      (s : Text) (a : BudgetAmount fl) → parse_budget_amount fl s ≡ ok a → IsAmount s a
  unfolding parse_budget_amount
  parse_budget_amount_sound s a h = elim (Option-cases (index s (codes ":"))) [
    | inl e ↦ absurd (ground arith)
    | inr (i, e) ↦
        let (inside, currency, rest) = parse_at_ok s i a (rw e at h) in
        let (cur, value, sign) = parse_value_ok _ _ a rest in
        record {
          decimal = drop (i + 1) s;
          whole = rw cur (index_byte_sound b':' s i e);
          currency_ok = (is_currency_iff a.currency).0 (rw cur currency);
          some_decimal = omega (
            arith,
            length-drop (i + 1) s,
            index_lt_length b':' s i e,
            ne_of_beq i (length s - 1) inside,
          );
          value_of = value;
          not_negative = sign;
        }
  ]

  parse_text :
      (cur dec : Text) (v : Float)
      → is_currency cur ≡ true
      → 0 < length dec
      → parse_float dec ≡ some v
      → less v zero_f ≡ false
      → parse_budget_amount fl (cur ++ b':' ∷ dec) ≡ ok (record { currency = cur; value = v })
  unfolding parse_budget_amount
  parse_text cur dec v currency some_dec value sign =
      let (plain, some_cur) = is_currency-colon cur currency in
      rw (index_byte_complete b':' cur dec plain) (
        ground (
          arith,
          take-length cur (b':' ∷ dec),
          drop-after cur b':' dec,
          length-append cur (b':' ∷ dec),
        ))

  parse_budget_amount_complete :
      (s : Text) (a : BudgetAmount fl) → IsAmount s a → parse_budget_amount fl s ≡ ok a
  parse_budget_amount_complete s a h = rw (h.whole) (
      parse_text a.currency h.decimal a.value ((is_currency_iff a.currency).1 h.currency_ok)
        h.some_decimal h.value_of h.not_negative)

  -- A text is accepted with an amount exactly when it is the amount's currency, a colon and a
  -- non-empty rest that strconv.ParseFloat reads as the amount's value, which is not below zero, and
  -- the currency is a non-empty run of letters that are all uppercase or all lowercase.
  pub parse_budget_amount_iff :
      (s : Text) (a : BudgetAmount fl) → (parse_budget_amount fl s ≡ ok a) ↔ IsAmount s a
  parse_budget_amount_iff s a = (parse_budget_amount_sound s a, parse_budget_amount_complete s a)
