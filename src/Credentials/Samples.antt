-- ===== src/Credentials/Samples.antt =====
-- Two credentials of which one is revoked, with numbers written in unary.
use go_sdk.Prelude.{
  ℕ, zero, suc, ◌+◌, ◌-◌, ◌≡◌, refl, ap, false, List, [], ◌∷◌, none, some, Text, text_beq, text_eq,
  codes, length, ltb, leb, nat_beq, lookup, if◌then◌else◌,
}
use go_sdk.Strings.{has_byte}
use go_sdk.Lease.{Floats}
use go_sdk.Server.Listing.{Decimals, bar}
use go_sdk.Server.Listing.Pages.{IsDecimal}
use go_sdk.Server.Submit.{IssueRequest}
use go_sdk.Credentials.{Memory, Credential, new_memory, issue}
use go_sdk.Credentials.Issuing.{Call, issues, revokes, run, IsFor, issue_fresh}

abbrev pence : Floats
pence = record {
  Float = ℕ;
  zero_f = 0;
  add_f = λ a b. a + b;
  sub_f = λ a b. a - b;
  less = ltb;
  less_eq = leb;
  equals = nat_beq;
  parse_float = λ s. some 1;
}

abbrev no_digits : pence.Float → Text
no_digits v = []

strokes : ℕ → Text
strokes zero = []
strokes (suc n) = b'1' ∷ strokes n

strokes_only : Decimals
strokes_only = record { format_int = strokes; parse_int = λ s. some (length s) }

length-strokes : (n : ℕ) → length (strokes n) ≡ n
unfolding strokes
length-strokes zero = refl
length-strokes (suc n) = ap suc (length-strokes n)

strokes_plain : (n : ℕ) → has_byte bar (strokes n) ≡ false
unfolding strokes has_byte
strokes_plain zero = refl
strokes_plain (suc n) = strokes_plain n

strokes_only-IsDecimal : IsDecimal strokes_only
unfolding strokes_only
strokes_only-IsDecimal = record {
  parse-format = λ n. ap some (length-strokes n);
  format-plain = strokes_plain;
}

abbrev asked : IssueRequest pence
asked = record {
  job_id = codes "j";
  principal = codes "p";
  agent = codes "a";
  lease = [];
  budget = [];
  expires_at = none;
}

abbrev history : List (Call pence)
history = issues asked ∷ issues asked ∷ revokes (codes "c1") ∷ []

abbrev after_all : Memory pence
after_all = run pence no_digits ⦃D = strokes_only⦄ (new_memory pence (codes "c")) history

issue_fresh_example :
    (cred : Credential) × ((issue pence no_digits ⦃D = strokes_only⦄ after_all asked).1 ≡ cred ∷ [])
    × IsFor pence no_digits ⦃D = strokes_only⦄ after_all asked cred
    × (lookup cred.id after_all.outstanding ≡ none)
    × (lookup (codes "c11") (issue pence no_digits ⦃D = strokes_only⦄ after_all asked).0.outstanding
        ≡ (if text_beq cred.id (codes "c11")
            then some cred
            else lookup (codes "c11") after_all.outstanding))
issue_fresh_example =
    issue_fresh pence no_digits ⦃D = strokes_only⦄ strokes_only-IsDecimal (codes "c") history asked
      (codes "c11")
