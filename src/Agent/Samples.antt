-- ===== src/Agent/Samples.antt =====
-- The reference "code-review@2.1".
use go_sdk.Prelude.{◌≡◌, refl, true, codes, inr}
use go_sdk.Agent.{
  AgentRef, ok, print_ref, parse_agent_ref, valid_agent_name, valid_agent_version, name_start,
  name_byte, version_byte,
}
use go_sdk.Agent.RoundTrip.{IsRef, parse-print}

abbrev reviewer : AgentRef
reviewer = record { name = codes "code-review"; version = codes "2.1" }

name_valid : valid_agent_name (codes "code-review") ≡ true
unfolding valid_agent_name name_start name_byte
name_valid = refl

version_valid : valid_agent_version (codes "2.1") ≡ true
unfolding valid_agent_version version_byte
version_valid = refl

reviewer-IsRef : IsRef reviewer
reviewer-IsRef = record { name_ok = name_valid; version_ok = inr version_valid }

parse-print_example : parse_agent_ref (print_ref reviewer) ≡ ok reviewer
parse-print_example = parse-print reviewer reviewer-IsRef
