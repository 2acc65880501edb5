-- ===== src/Lease/State/Gate.antt =====
-- What `ValidateOp` admits, and that a counter driven to zero closes it.
use go_sdk.Prelude.{
  ◌<◌, any, List, Option, text_beq_iff, subst, ℕ, ◌≡◌, refl, ◌≢◌, ◌↔◌, ◌⊎◌, inl, inr, true, false,
  [], ◌∷◌, none, some, arith, Text, text_eq, lookup, lookup-insert_self, All, Dict, Option-cases,
}
use go_sdk.Errors.{
  Error, fail-code, says, about, at_time, lease_expired, permission_denied, budget_exhausted,
}
use go_sdk.Glob
use go_sdk.Lease.{
  Floats, Urls, Lease, Capability, Currency, cap_fs_read, cap_fs_write, cap_net_fetch,
}
use go_sdk.Lease.Path.{canonicalize_path, canonicalize_url}
use go_sdk.Lease.State.{
  url_or, canonicalize_target, any_match, State, is_expired, matches, first_exhausted, budget_gate,
  validate_op, amount_at, report, time_of,
}

-- There is no deadline, or it is later.
abbrev pub IsBefore : ℕ → Option ℕ → Type 0
IsBefore now none = Unit
IsBefore now (some e) = now < e

is_expired-IsBefore : (now : ℕ) (e : Option ℕ) → (is_expired e now ≡ false) ↔ IsBefore now e
unfolding is_expired
is_expired-IsBefore now none = (λ h. tt, λ h. refl)
is_expired-IsBefore now (some e) = ground arith

-- One of the patterns matches.
abbrev pub IsMatched : Text → List Text → Type 0
IsMatched canon [] = ⊥
IsMatched canon (p ∷ patterns) = (Glob.match p canon ≡ true) ⊎ IsMatched canon patterns

any-IsMatched :
    (canon : Text) (patterns : List Text)
    → (any (λ p. Glob.match p canon) patterns ≡ true) ↔ IsMatched canon patterns
any-IsMatched canon [] = (λ h. absurd (ground arith), λ h. absurd h)
any-IsMatched canon (p ∷ patterns) = ground (arith, any-IsMatched canon patterns)

-- The canonical form of a URL, or the target where it has none.
abbrev pub IsUrlForm : Text → Option Text → Text → Type 0
IsUrlForm target none canon = canon ≡ target
IsUrlForm target (some url) canon = canon ≡ url

-- The canonical form of a target under a capability.
abbrev pub IsCanonical : Urls → Capability → Text → Text → Type 0
IsCanonical urls cap target canon =
    (((cap ≡ cap_fs_read) ⊎ (cap ≡ cap_fs_write)) × (canon ≡ canonicalize_path target))
    ⊎ ((cap ≡ cap_net_fetch) × IsUrlForm target (canonicalize_url urls target) canon)
    ⊎ ((cap ≢ cap_fs_read) × (cap ≢ cap_fs_write) × (cap ≢ cap_net_fetch) × (canon ≡ target))

-- A pattern that the lease has for the capability matches the canonical target.
abbrev pub IsGranted : Urls → Lease → Capability → Text → Type 0
IsGranted urls lease cap target =
    (canon : Text) × IsCanonical urls cap target canon
    × ((patterns : List Text) × (lookup cap lease ≡ some patterns) × IsMatched canon patterns)

url_form :
    (target canon : Text) (u : Option Text)
    → (canonicalize : Text) → canonicalize ≡ url_or target u
    → IsUrlForm target u canon ↔ (canon ≡ canonicalize)
unfolding url_or
url_form target canon none c e = ground arith
url_form target canon (some u) c e = ground arith

canonicalize_target_iff :
    (urls : Urls) (cap : Capability) (target canon : Text)
    → IsCanonical urls cap target canon ↔ (canon ≡ canonicalize_target urls cap target)
unfolding canonicalize_target
canonicalize_target_iff urls cap target canon = ground (
  arith,
  text_beq_iff cap cap_fs_read,
  text_beq_iff cap cap_fs_write,
  text_beq_iff cap cap_net_fetch,
  url_form target canon (canonicalize_url urls target) _ refl,
)

any_match-some :
    (canon : Text) (found : Option (List Text))
    → (any_match canon found ≡ true)
      ↔ ((patterns : List Text) × (found ≡ some patterns) × IsMatched canon patterns)
unfolding any_match
any_match-some canon none = (λ h. absurd (ground arith), λ (patterns, e, m). absurd (ground arith))
any_match-some canon (some patterns) = (
  λ h. (patterns, refl, (any-IsMatched canon patterns).0 h),
  λ (others, e, m).
      (any-IsMatched canon patterns).1
        (let same : others ≡ patterns = ground arith in subst (IsMatched canon) same m),
)

matches-IsGranted :
    (urls : Urls) (lease : Lease) (cap : Capability) (target : Text)
    → (matches urls lease cap target ≡ true) ↔ IsGranted urls lease cap target
unfolding matches
matches-IsGranted urls lease cap target =
    let canonical : Text = canonicalize_target urls cap target in
    (
      (λ h. (
        canonical,
        (canonicalize_target_iff urls cap target canonical).1 refl,
        (any_match-some canonical (lookup cap lease)).0 h,
      )),
      λ (canon, form, found).
          let same : canon ≡ canonical = (canonicalize_target_iff urls cap target canon).0 form in
          (any_match-some canonical (lookup cap lease)).1 (
            subst
              (λ t.
                (patterns : List Text) × (lookup cap lease ≡ some patterns) × IsMatched t patterns)
              same found),
    )

module _ (fl : Floats) where
  open fl use {Float, zero_f, less_eq, less, sub_f}

  -- Every counter is above zero.
  abbrev pub AllPositive : Dict Currency Float → Type 0
  AllPositive = All (λ kv. less_eq kv.1 zero_f ≡ false)

  first_exhausted-none : (m : Dict Currency Float) → (first_exhausted fl m ≡ none) ↔ AllPositive m
  unfolding first_exhausted
  first_exhausted-none [] = (λ h. tt, λ h. refl)
  first_exhausted-none ((cur, v) ∷ m) = ground (arith, first_exhausted-none m)

  budget_gate-none :
      (s : State fl) → (budget_gate fl s ≡ none) ↔ ((s.initialized ≡ []) ⊎ AllPositive s.counters)
  unfolding budget_gate
  budget_gate-none s = ground (arith, first_exhausted-none s.counters)

  validate_op_tests :
      (urls : Urls) (s : State fl) (now : ℕ) (cap : Capability) (target : Text)
      → (validate_op fl urls (some s) now cap target ≡ none) ↔ (
          (is_expired s.expires_at now ≡ false)
          × (matches urls s.lease cap target ≡ true)
          × ((s.initialized ≡ []) ⊎ AllPositive s.counters))
  unfolding validate_op
  validate_op_tests urls s now cap target = ground (arith, budget_gate-none s)

  -- An operation is admitted exactly when the lease has no deadline or the time is before it, the
  -- lease has patterns for the capability of which one matches the target in its canonical form, and
  -- the lease has no budget or every counter is above zero. The canonical form is that of a path for
  -- fs.read and fs.write, that of a URL for net.fetch, where there is one, and otherwise the target.
  pub validate_op-none :
      (urls : Urls) (s : State fl) (now : ℕ) (cap : Capability) (target : Text)
      → (validate_op fl urls (some s) now cap target ≡ none) ↔ (
          IsBefore now s.expires_at
          × IsGranted urls s.lease cap target
          × ((s.initialized ≡ []) ⊎ AllPositive s.counters))
  validate_op-none urls s now cap target =
      let tests = validate_op_tests urls s now cap target in
      let early = is_expired-IsBefore now s.expires_at in
      let granted = matches-IsGranted urls s.lease cap target in
      (
        (λ h. let (live, fits, budget) = tests.0 h in (early.0 live, granted.0 fits, budget)),
        λ (live, fits, budget). tests.1 (early.1 live, granted.1 fits, budget),
      )

  budget_gate_code :
      (s : State fl) (e : Error) → budget_gate fl s ≡ some e → e.code ≡ budget_exhausted
  unfolding budget_gate
  budget_gate_code s e h = elim (Option-cases (first_exhausted fl s.counters)) [
    | inl n ↦ absurd (ground arith)
    | inr (cur, f) ↦
        ground (arith, fail-code budget_exhausted (about "budget exhausted for " cur ""))
  ]

  AllPositive-lookup :
      (m : Dict Currency Float) (cur : Currency) (v : Float)
      → AllPositive m
      → lookup cur m ≡ some v
      → less_eq v zero_f ≡ false
  unfolding lookup
  AllPositive-lookup [] cur v h e = cc
  AllPositive-lookup ((j, w) ∷ m) cur v h e = ground (arith, AllPositive-lookup m cur v h.1)

  -- A refused operation is refused with the code of the first of the three tests that it fails.
  pub validate_op_code :
      (urls : Urls) (s : State fl) (now : ℕ) (cap : Capability) (target : Text) (e : Error)
      → validate_op fl urls (some s) now cap target ≡ some e
      → ((is_expired s.expires_at now ≡ true) × (e.code ≡ lease_expired))
        ⊎ ((is_expired s.expires_at now ≡ false)
            × (matches urls s.lease cap target ≡ false)
            × (e.code ≡ permission_denied))
        ⊎ ((is_expired s.expires_at now ≡ false)
            × (matches urls s.lease cap target ≡ true)
            × (budget_gate fl s ≡ some e)
            × (e.code ≡ budget_exhausted))
  unfolding validate_op
  validate_op_code urls s now cap target e h = ground (
    arith,
    budget_gate_code s e,
    fail-code lease_expired (at_time "lease expired at " (time_of s.expires_at)),
    fail-code permission_denied (says "operation not permitted by lease"),
  )

  report_balance :
      (s : State fl) (cur : Currency) (cost : Float)
      → (report fl s cur cost).2 ≡ true
      → (lookup cur (report fl s cur cost).0.counters ≡ some (report fl s cur cost).1)
        × (lookup cur (report fl s cur cost).0.initialized ≢ none)
  unfolding report amount_at
  report_balance s cur cost h =
      let left : Float = sub_f (amount_at fl cur s.counters) cost in
      ground (arith, lookup-insert_self cur left s.counters)

  -- Once a reported cost has driven a budgeted counter to zero or below, no operation is admitted.
  pub report_closes :
      (urls : Urls) (s : State fl) (cur : Currency) (cost : Float)
      → less_eq (report fl s cur cost).1 zero_f ≡ true
      → (report fl s cur cost).2 ≡ true
      → (now : ℕ) (cap : Capability) (target : Text)
      → validate_op fl urls (some (report fl s cur cost).0) now cap target ≢ none
  report_closes urls s cur cost low budgeted now cap target h =
      let (unexpired, granted, gate) = (validate_op_tests urls _ now cap target).0 h in
      let (balance, known) = report_balance s cur cost budgeted in
      elim gate [
        | inl e ↦ known (rw e (unfold lookup in refl))
        | inr p ↦ ground (arith, AllPositive-lookup _ cur _ p balance)
      ]
