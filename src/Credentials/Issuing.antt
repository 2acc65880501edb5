-- ===== src/Credentials/Issuing.antt =====
-- The ids that the in-memory provisioner gives out.
use go_sdk.Prelude.{
  ℕ, suc, ◌<◌, ◌≡◌, refl, sym, ap, ◌∙◌, false, List, [], ◌∷◌, ◌++◌, Option, none, some, Text,
  text_beq, text_eq, text_beq_iff, if◌then◌else◌, lookup, lookup-insert, lookup-delete, Bool-cases,
  inl, inr, arith,
}
use go_sdk.Lease.{Floats, cap_model_use}
use go_sdk.Server.Listing.{Decimals}
use go_sdk.Server.Listing.Pages.{IsDecimal}
use go_sdk.Server.Submit.{IssueRequest}
use go_sdk.Credentials.{
  Memory, Credential, patterns_or, budget_patterns, new_memory, next_id, credential_for, issue,
  revoke, revoke_prior_value,
}

append_cancel : (p x y : Text) → p ++ x ≡ p ++ y → x ≡ y
append_cancel [] x y h = h
append_cancel (c ∷ p) x y h = append_cancel p x y (ground arith)

some_inj : (a b : ℕ) → (some a ≡ some b) → a ≡ b
some_inj a b h = ground arith

pub data Call (fl : Floats) : Type 0 where
  issues : IssueRequest fl → Call fl
  revokes : Text → Call fl
  revokes_prior : Text → Text → Call fl

module _ (fl : Floats) (format_float : fl.Float → Text) ⦃D : Decimals⦄ where
  pub step : Memory fl → Call fl → Memory fl
  step m (issues req) = (issue fl format_float m req).0
  step m (revokes id) = revoke m id
  step m (revokes_prior id prior) = revoke_prior_value m id prior

  pub run : Memory fl → List (Call fl) → Memory fl
  unfolding step
  run m [] = m
  run m (c ∷ cs) = run (step m c) cs

  id_injective :
      IsDecimal D
      → (prefix : Text) (a b : ℕ) → prefix ++ D.format_int a ≡ prefix ++ D.format_int b
      → a ≡ b
  id_injective d prefix a b h = some_inj a b (
      sym (d.parse-format a)
      ∙ ap D.parse_int (append_cancel prefix (D.format_int a) (D.format_int b) h)
      ∙ d.parse-format b)

  -- The numbers above the counter are not in use.
  abbrev IsAhead : Memory fl → Type 0
  IsAhead m = (k : ℕ) → m.next < k → lookup (m.prefix ++ D.format_int k) m.outstanding ≡ none

  step-IsAhead : IsDecimal D → (m : Memory fl) (c : Call fl) → IsAhead m → IsAhead (step m c)
  unfolding step issue credential_for revoke revoke_prior_value
  step-IsAhead d m (issues req) h k above =
      let other : text_beq (next_id fl format_float m) (m.prefix ++ D.format_int k) ≡ false =
        (elim (Bool-cases (text_beq (next_id fl format_float m) (m.prefix ++ D.format_int k))) [
          | inl same ↦
              let e = id_injective d m.prefix (suc m.next) k (
                ground
                  (arith, text_beq_iff (next_id fl format_float m) (m.prefix ++ D.format_int k))) in
              absurd (omega arith)
          | inr differs ↦ differs
        ]) in
      rw
        (lookup-insert (next_id fl format_float m) (m.prefix ++ D.format_int k)
          (credential_for fl format_float (next_id fl format_float m) req) m.outstanding)
        (rw other (h k (omega arith)))
  step-IsAhead d m (revokes id) h k above =
      ground (arith, lookup-delete id (m.prefix ++ D.format_int k) m.outstanding, h k above)
  step-IsAhead d m (revokes_prior id prior) h k above = h k above

  run-IsAhead : IsDecimal D → (cs : List (Call fl)) (m : Memory fl) → IsAhead m → IsAhead (run m cs)
  unfolding run
  run-IsAhead d [] m h = h
  run-IsAhead d (c ∷ cs) m h = run-IsAhead d cs (step m c) (step-IsAhead d m c h)

  -- What the patterns of model.use come to.
  abbrev pub models_of : Option (List Text) → List Text
  models_of none = []
  models_of (some patterns) = patterns

  -- The next id of the provisioner, for what was asked.
  abbrev pub IsFor : Memory fl → IssueRequest fl → Credential → Type 0
  IsFor m req cred =
      (cred.id ≡ m.prefix ++ D.format_int (suc m.next))
      × (cred.constraints.expires_at ≡ req.expires_at)
      × (cred.constraints.model_use ≡ models_of (lookup cap_model_use req.lease))
      × (cred.constraints.cost_budget ≡ budget_patterns fl format_float req.budget)

  models_or : (found : Option (List Text)) → patterns_or found ≡ models_of found
  unfolding patterns_or
  models_or none = refl
  models_or (some patterns) = refl

  credential_for-IsFor :
      (m : Memory fl) (req : IssueRequest fl)
      → IsFor m req (credential_for fl format_float (next_id fl format_float m) req)
  unfolding credential_for
  credential_for-IsFor m req = (refl, refl, models_or (lookup cap_model_use req.lease), refl)

  -- Whatever was issued and revoked, the provisioner answers a request with exactly one credential, under
  -- an id that is not outstanding, so that it replaces none. It ends when the request says, is for
  -- the models of the request's lease and has its budget. It is outstanding afterwards, and every other
  -- one is as before. Numbers are printed so that they can be read back.
  pub issue_fresh :
      IsDecimal D
      → (prefix : Text) (cs : List (Call fl)) (req : IssueRequest fl) (other : Text)
      → (cred : Credential) × ((issue fl format_float (run (new_memory fl prefix) cs) req).1
          ≡ cred ∷ [])
        × IsFor (run (new_memory fl prefix) cs) req cred
        × (lookup cred.id (run (new_memory fl prefix) cs).outstanding ≡ none)
        × (lookup other (issue fl format_float (run (new_memory fl prefix) cs) req).0.outstanding
            ≡ (if text_beq cred.id other
                then some cred
                else lookup other (run (new_memory fl prefix) cs).outstanding))
  issue_fresh d prefix cs req other =
      let m : Memory fl = run (new_memory fl prefix) cs in
      let ahead : IsAhead m =
        run-IsAhead d cs (new_memory fl prefix) (λ k above. unfold new_memory lookup in refl) in
      (
        credential_for fl format_float (next_id fl format_float m) req,
        unfold issue in refl,
        credential_for-IsFor m req,
        unfold credential_for in ahead (suc m.next) (omega arith),
        unfold issue credential_for in
            lookup-insert (next_id fl format_float m) other
              (credential_for fl format_float (next_id fl format_float m) req) m.outstanding,
      )
