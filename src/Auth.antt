-- ===== src/Auth.antt =====
-- auth/auth.go: `StaticBearer`. A constant-time comparison answers as an equality does. The tokens
-- are a map, visited in some order.
pub mod Lookup
mod Samples
use go_sdk.Prelude.{
  Bool, true, false, List, [], ◌∷◌, Option, none, some, Text, text_beq, text_eq, if◌then◌else◌,
  Dict,
}
use go_sdk.Errors.{GoError, foreign, with_cause, err, unauthenticated, says}

pub data Verified : Type 0 where
  ok : Text → Verified
  refused : GoError → Verified

-- The sentinel `ErrInvalidToken`.
abbrev pub invalid_token : GoError
invalid_token = foreign (says "auth: invalid token")

-- The loop over every entry, with the principal and the flag so far.
unfoldable pub match_all : Text → Dict Text Text → Text → Bool → Text × Bool
match_all candidate [] principal matched = (principal, matched)
match_all candidate ((token, owner) ∷ entries) principal matched =
    if text_beq candidate token
    then match_all candidate entries owner true
    else match_all candidate entries principal matched

verdict : Text × Bool → Verified
verdict (principal, true) = ok principal
verdict (principal, false) = refused (with_cause (err unauthenticated) invalid_token)

unfoldable pub static_bearer : Dict Text Text → Text → Verified
unfolding verdict
static_bearer tokens token = verdict (match_all token tokens [] false)
