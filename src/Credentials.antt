-- ===== src/Credentials.antt =====
-- credentials/memory.go: the in-memory provisioner. Its mutex makes every method one step. A request
-- is kept as it is, since the copies of the source cannot be told from it here.
pub mod Issuing
mod Samples
use go_sdk.Prelude.{
  ℕ, suc, ◌+◌, Bool, true, false, List, [], ◌∷◌, ◌++◌, Option, none, some, Text, text_beq, text_eq,
  codes, if◌then◌else◌, length, Dict, lookup, insert, delete, map,
}
use go_sdk.Strings.{text_less}
use go_sdk.Lease.{Floats, Currency, Lease, cap_model_use}
use go_sdk.Server.Listing.{Decimals}
use go_sdk.Server.Submit.{IssueRequest}

pub record Constraints : Type 0 where
  pub cost_budget : List Text
  pub model_use : List Text
  pub expires_at : Option ℕ

pub record Credential : Type 0 where
  pub id : Text
  pub scheme : Text
  pub value : Text
  pub endpoint : Text
  pub constraints : Constraints

pub record Memory (fl : Floats) : Type 0 where
  pub prefix : Text
  pub next : ℕ
  pub outstanding : Dict Text Credential
  pub issued : List (IssueRequest fl)
  pub revoked : List Text
  pub revoked_values : List Text

patterns_or : Option (List Text) → List Text
patterns_or none = []
patterns_or (some patterns) = patterns

-- `sort.Strings` on the keys of the budget, which are different, with their amounts.
insert_key : {A : Type 0} → Text × A → Dict Text A → Dict Text A
insert_key kv [] = kv ∷ []
insert_key kv (other ∷ m) =
    if text_less kv.0 other.0 then kv ∷ other ∷ m else other ∷ insert_key kv m

sort_keys : {A : Type 0} → Dict Text A → Dict Text A
unfolding insert_key
sort_keys [] = []
sort_keys (kv ∷ m) = insert_key kv (sort_keys m)

unfoldable pub new_memory : (fl : Floats) → Text → Memory fl
new_memory fl prefix = record {
  prefix = prefix;
  next = 0;
  outstanding = [];
  issued = [];
  revoked = [];
  revoked_values = [];
}

-- strconv.FormatFloat is a parameter.
module _ (fl : Floats) (format_float : fl.Float → Text) ⦃D : Decimals⦄ where
  unfoldable pub budget_patterns : Dict Currency fl.Float → List Text
  unfolding sort_keys insert_key
  budget_patterns budget = map (λ kv. kv.0 ++ codes ":" ++ format_float kv.1) (sort_keys budget)

  abbrev pub next_id : Memory fl → Text
  next_id m = m.prefix ++ D.format_int (suc m.next)

  unfoldable pub credential_for : Text → IssueRequest fl → Credential
  unfolding budget_patterns sort_keys insert_key patterns_or
  credential_for id req = record {
    id = id;
    scheme = codes "bearer";
    value = codes "memory-secret-" ++ id;
    endpoint = codes "memory://credentials/" ++ id;
    constraints = record {
      cost_budget = budget_patterns req.budget;
      model_use = patterns_or (lookup cap_model_use req.lease);
      expires_at = req.expires_at;
    };
  }

  unfoldable pub issue : Memory fl → IssueRequest fl → Memory fl × List Credential
  issue m req =
      let cred : Credential = credential_for (next_id m) req in
      (
        record m {
          next = suc m.next;
          outstanding = insert cred.id cred m.outstanding;
          issued = m.issued ++ req ∷ [];
        },
        cred ∷ [],
      )

unfoldable pub revoke : {fl : Floats} → Memory fl → Text → Memory fl
revoke m id = record m { outstanding = delete id m.outstanding; revoked = m.revoked ++ id ∷ [] }

unfoldable pub revoke_prior_value : {fl : Floats} → Memory fl → Text → Text → Memory fl
revoke_prior_value m id prior = record m { revoked_values = m.revoked_values ++ prior ∷ [] }
