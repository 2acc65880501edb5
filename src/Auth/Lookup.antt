-- ===== src/Auth/Lookup.antt =====
-- The loop of `StaticBearer` against a lookup in the map of the tokens.
use go_sdk.Prelude.{
  ◌≡◌, ◌∙◌, ap, refl, Bool, true, false, [], ◌∷◌, Option, none, some, Text, text_eq, text_beq_iff,
  Dict, lookup, UniqueKeys, arith,
}
use go_sdk.Errors.{with_cause, err, unauthenticated}
use go_sdk.Auth.{Verified, ok, refused, invalid_token, match_all, verdict, static_bearer}

-- What a lookup means for the caller.
abbrev pub answer : Option Text → Verified
answer none = refused (with_cause (err unauthenticated) invalid_token)
answer (some principal) = ok principal

outcome : Text → Bool → Option Text → Text × Bool
outcome principal matched none = (principal, matched)
outcome principal matched (some owner) = (owner, true)

match_all-lookup :
    (candidate : Text) (tokens : Dict Text Text) (principal : Text) (matched : Bool)
    → UniqueKeys tokens
    → match_all candidate tokens principal matched
      ≡ outcome principal matched (lookup candidate tokens)
unfolding match_all lookup outcome
match_all-lookup candidate [] principal matched u = refl
match_all-lookup candidate ((token, owner) ∷ entries) principal matched u = ground (
  arith,
  match_all-lookup candidate entries owner true u.1,
  match_all-lookup candidate entries principal matched u.1,
  u.0,
  text_beq_iff candidate token,
  text_beq_iff token candidate,
)

verdict-outcome :
    (principal : Text) (found : Option Text)
    → verdict (outcome principal false found) ≡ answer found
unfolding verdict outcome
verdict-outcome principal none = refl
verdict-outcome principal (some owner) = refl

-- The verifier, which looks at every token, answers as a lookup in the map of the tokens does: with
-- the principal of the token, and with UNAUTHENTICATED, caused by the invalid token, for an unknown
-- one. The tokens of the map are different.
pub static_bearer-lookup :
    (tokens : Dict Text Text) (token : Text)
    → UniqueKeys tokens
    → static_bearer tokens token ≡ answer (lookup token tokens)
unfolding static_bearer
static_bearer-lookup tokens token u =
    ap verdict (match_all-lookup token tokens [] false u) ∙ verdict-outcome [] (lookup token tokens)
