-- ===== src/Lease/Samples.antt =====
-- A lease with a tool pattern and a budget, over whole amounts of money.
use go_sdk.Prelude.{
  ℕ, ◌+◌, ◌-◌, ◌*◌, ◌≡◌, ◌≢◌, ◌↔◌, ◌⊎◌, refl, Bool, true, false, ◌&&◌, ◌||◌, List, [], ◌∷◌, Option,
  none, some, Text, codes, text_beq, text_eq, ne_of_beq, leb, ltb, nat_beq, lookup, insert, All,
  arith, if◌then◌else◌,
}
use go_sdk.Strings.{split, has_byte, has_prefix, has_suffix, index}
use go_sdk.Glob.{
  covers, match, split_sep, covers_segments, match_segments, head_kind, any_suffix, segment_covers,
  literal_segment_match,
}
use go_sdk.Lease.{Floats, IsIeee, Urls, Lease, cap_cost_budget, cap_tool_call}
use go_sdk.Lease.Path.{canonicalize_path, join, slash}
use go_sdk.Lease.Path.Clean.{IsName, canonicalize_path_names}
use go_sdk.Lease.Budget.{
  currency_loop, BudgetAmount, ok, parse_budget_amount, is_currency, all_uppercase_letters,
}
use go_sdk.Lease.Budget.Grammar.{IsAmount, parse_budget_amount_iff}
use go_sdk.Lease.State.{
  credit_all, new_state, validate_op, validate_and_debit, is_expired, matches, any_match,
  canonicalize_target, amount_at, debit,
}
use go_sdk.Lease.State.Gate.{IsBefore, IsGranted, AllPositive, validate_op-none}
use go_sdk.Lease.State.Reserve.{
  validate_then_debit, validate_and_debit-debit, Reservation, debits, after, after_all,
  reservations_never_overdraw,
}
use go_sdk.Lease.Subset.{is_lease_subset}
use go_sdk.Lease.Subset.Sound.{is_lease_subset_sound}

-- Whole amounts: n, or -(n + 1).
data Amount : Type 0 where
  plus minus : ℕ → Amount

abbrev less_amount : Amount → Amount → Bool
less_amount (plus a) (plus b) = ltb a b
less_amount (plus a) (minus b) = false
less_amount (minus a) (plus b) = true
less_amount (minus a) (minus b) = ltb b a

-- a - b
abbrev difference : ℕ → ℕ → Amount
difference a b = if leb b a then plus (a - b) else minus (b - a - 1)

abbrev add_amount : Amount → Amount → Amount
add_amount (plus a) (plus b) = plus (a + b)
add_amount (plus a) (minus b) = difference a (b + 1)
add_amount (minus a) (plus b) = difference b (a + 1)
add_amount (minus a) (minus b) = minus (a + b + 1)

abbrev negate : Amount → Amount
negate (plus a) = difference 0 a
negate (minus a) = plus (a + 1)

abbrev same_amount : Amount → Amount → Bool
same_amount (plus a) (plus b) = nat_beq a b
same_amount (minus a) (minus b) = nat_beq a b
same_amount (plus a) (minus b) = false
same_amount (minus a) (plus b) = false

abbrev digits : ℕ → List ℕ → Option Amount
digits n [] = some (plus n)
digits n (c ∷ cs) = if leb 48 c && leb c 57 then digits (n * 10 + (c - 48)) cs else none

abbrev money : Floats
money = record {
  Float = Amount;
  zero_f = plus 0;
  add_f = add_amount;
  sub_f = λ a b. add_amount a (negate b);
  less = less_amount;
  less_eq = λ a b. less_amount a b || same_amount a b;
  equals = same_amount;
  parse_float = digits 0;
}

add_amount-not_less :
    (a b : Amount)
    → less_amount a (plus 0) ≡ false
    → less_amount b (plus 0) ≡ false
    → less_amount (add_amount a b) (plus 0) ≡ false
add_amount-not_less (plus a) (plus b) h k = ground arith
add_amount-not_less (plus a) (minus b) h k = cc
add_amount-not_less (minus a) b h k = cc

money-IsIeee : IsIeee money
money-IsIeee = record { zero-not_less = refl; add-not_less = add_amount-not_less }

-- No target is a URL here.
abbrev no_urls : Urls
no_urls = record { parse_url = λ t. none; print_url = λ u. [] }

abbrev parent : Lease
parent = (cap_tool_call, codes "fs/**" ∷ []) ∷ []

abbrev child : Lease
child = (cap_tool_call, codes "fs/*/x" ∷ []) ∷ []

child_passes : is_lease_subset money parent child [] (some 9) (some 7) ≡ none
unfolding is_lease_subset covers split_sep split covers_segments head_kind any_suffix segment_covers
    literal_segment_match text_beq has_byte has_prefix has_suffix index lookup
child_passes = refl

child-matches : matches no_urls child cap_tool_call (codes "fs/a/x") ≡ true
unfolding matches canonicalize_target any_match lookup text_beq match split_sep split match_segments
    head_kind literal_segment_match has_byte
child-matches = refl

not_budget : cap_tool_call ≢ cap_cost_budget
unfolding text_beq
not_budget = ne_of_beq cap_tool_call cap_cost_budget refl

is_lease_subset_sound_example : matches no_urls parent cap_tool_call (codes "fs/a/x") ≡ true
is_lease_subset_sound_example =
    is_lease_subset_sound money no_urls parent child [] (some 9) (some 7) cap_tool_call
      (codes "fs/a/x") child_passes not_budget child-matches

seven_early : is_expired (some 7) 6 ≡ false
unfolding is_expired
seven_early = refl

abbrev budgeted : Lease
budgeted = (cap_cost_budget, codes "USD:5" ∷ []) ∷ (cap_tool_call, codes "fs/**" ∷ []) ∷ []

validate_op-none_example :
    (validate_op money no_urls (some (new_state money budgeted none)) 3 cap_tool_call (codes "fs/a")
      ≡ none)
    ↔ (IsBefore 3 (new_state money budgeted none).expires_at
        × IsGranted no_urls (new_state money budgeted none).lease cap_tool_call (codes "fs/a")
        × (((new_state money budgeted none).initialized ≡ [])
            ⊎ AllPositive money (new_state money budgeted none).counters))
validate_op-none_example =
    validate_op-none money no_urls (new_state money budgeted none) 3 cap_tool_call (codes "fs/a")

abbrev three_dollars : BudgetAmount money
three_dollars = record { currency = codes "USD"; value = plus 3 }

validate_and_debit-debit_example :
    validate_and_debit money no_urls
      (some (new_state money budgeted none))
      3
      cap_tool_call
      (codes "fs/a")
      three_dollars
    ≡ validate_then_debit money
        (validate_op money no_urls
          (some (new_state money budgeted none))
          3
          cap_tool_call
          (codes "fs/a"))
        (new_state money budgeted none)
        (codes "USD")
        (plus 3)
validate_and_debit-debit_example =
    validate_and_debit-debit money no_urls (new_state money budgeted none) 3 cap_tool_call
      (codes "fs/a") three_dollars refl refl (λ e. cc)

abbrev two_debits : List (Reservation money)
two_debits = debits (codes "USD") (plus 3) ∷ debits (codes "USD") (plus 4) ∷ []

left_over :
    lookup
      (codes "USD")
      (after_all money no_urls (new_state money budgeted none) two_debits).counters
    ≡ some (plus 2)
unfolding after_all after new_state debit amount_at parse_budget_amount is_currency
    all_uppercase_letters index has_prefix text_beq lookup insert credit_all currency_loop
left_over = refl

reservations_never_overdraw_example : less_amount (plus 2) (plus 0) ≡ false
reservations_never_overdraw_example =
    reservations_never_overdraw money money-IsIeee no_urls budgeted none two_debits (codes "USD")
      (plus 2) left_over

parse_budget_amount_iff_example :
    (parse_budget_amount money (codes "USD:3") ≡ ok three_dollars)
    ↔ IsAmount money (codes "USD:3") three_dollars
parse_budget_amount_iff_example = parse_budget_amount_iff money (codes "USD:3") three_dollars

rooted : has_prefix (codes "/a/../b") (codes "/") ≡ true
unfolding has_prefix
rooted = refl

canonicalize_path_names_example :
    (segs : List Text) × (canonicalize_path (codes "/a/../b") ≡ slash ∷ join segs) × All IsName segs
canonicalize_path_names_example = canonicalize_path_names (codes "/a/../b") rooted
