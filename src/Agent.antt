-- ===== src/Agent.antt =====
-- messages/agent.go: agent references, "name" or "name@version".
pub mod RoundTrip
mod Samples
use go_sdk.Prelude.{
  ℕ, ◌+◌, Bool, true, false, not, ◌&&◌, ◌||◌, List, [], ◌∷◌, ◌++◌, Option, none, some, Text,
  text_beq, leb, nat_beq, if◌then◌else◌, all, take, drop, codes,
}
use go_sdk.Strings.{index}
use go_sdk.Errors.{Error, fail, invalid_request, says}

pub record AgentRef : Type 0 where
  pub name : Text
  pub version : Text

abbrev pub at_sign : ℕ
at_sign = b'@'

-- The method `String`.
unfoldable pub print_ref : AgentRef → Text
print_ref a = if text_beq a.version [] then a.name else a.name ++ at_sign ∷ a.version

abbrev between : ℕ → ℕ → ℕ → Bool
between lo hi c = leb lo c && leb c hi

name_start : ℕ → Bool
name_start c = between b'a' b'z' c || between b'0' b'9' c

name_byte : ℕ → Bool
name_byte c =
    between b'a' b'z' c || between b'0' b'9' c || nat_beq c b'.' || nat_beq c b'_' || nat_beq c b'-'

version_byte : ℕ → Bool
version_byte c =
    between b'a' b'z' c
    || between b'A' b'Z' c
    || between b'0' b'9' c
    || nat_beq c b'.'
    || nat_beq c b'_'
    || nat_beq c b'-'
    || nat_beq c b'+'

unfoldable pub valid_agent_name : Text → Bool
unfolding name_start name_byte
valid_agent_name [] = false
valid_agent_name (c ∷ s) = if not (name_start c) then false else all name_byte s

unfoldable pub valid_agent_version : Text → Bool
unfolding version_byte
valid_agent_version [] = false
valid_agent_version (c ∷ s) = all version_byte (c ∷ s)

pub data ParsedRef : Type 0 where
  ok : AgentRef → ParsedRef
  bad : Error → ParsedRef

-- strings.SplitN(s, "@", 2), by the index of the first '@'.
unfoldable pub parse_parts : Text → Option ℕ → ParsedRef
parse_parts s none =
    if not (valid_agent_name s)
    then bad (fail invalid_request (says "agent name does not match [a-z0-9][a-z0-9._-]*"))
    else ok (record { name = s; version = [] })
parse_parts s (some i) =
    if not (valid_agent_name (take i s))
    then bad (fail invalid_request (says "agent name does not match [a-z0-9][a-z0-9._-]*"))
    else if not (valid_agent_version (drop (i + 1) s))
    then bad (fail invalid_request (says "agent version does not match [a-zA-Z0-9.+_-]+"))
    else ok (record { name = take i s; version = drop (i + 1) s })

unfoldable pub parse_agent_ref : Text → ParsedRef
parse_agent_ref [] = bad (fail invalid_request (says "agent must be non-empty"))
parse_agent_ref (c ∷ s) = parse_parts (c ∷ s) (index (c ∷ s) (codes "@"))
