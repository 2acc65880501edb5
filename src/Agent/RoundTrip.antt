-- ===== src/Agent/RoundTrip.antt =====
-- Printing and parsing agent references undo one another.
use go_sdk.Prelude.{
  ℕ, ◌+◌, ◌≡◌, refl, sym, ap, ◌∙◌, ◌≢◌, ◌⊎◌, inl, inr, true, false, [], ◌∷◌, ◌++◌, none, some,
  arith, Text, text_beq_iff, all, take, drop, codes, Option-cases,
}
use go_sdk.Strings.{has_byte, index}
use go_sdk.Strings.Search.{
  index_byte_sound, index_byte_complete, index_byte_none, take-length, drop-after,
}
use go_sdk.Agent.{
  AgentRef, at_sign, print_ref, name_byte, valid_agent_name, valid_agent_version, ok, parse_parts,
  parse_agent_ref,
}

-- A reference that the grammar allows.
pub record IsRef (a : AgentRef) : Type 0 where
  pub name_ok : valid_agent_name a.name ≡ true
  pub version_ok : (a.version ≡ []) ⊎ (valid_agent_version a.version ≡ true)

all-name_byte : (s : Text) → all name_byte s ≡ true → has_byte at_sign s ≡ false
unfolding name_byte has_byte
all-name_byte [] h = refl
all-name_byte (c ∷ s) h = ground (arith, all-name_byte s)

name-plain : (s : Text) → valid_agent_name s ≡ true → has_byte at_sign s ≡ false
unfolding valid_agent_name has_byte
name-plain [] h = cc
name-plain (c ∷ s) h = ground (arith, all-name_byte s)

parse_parts-name :
    (s : Text)
    → valid_agent_name s ≡ true
    → parse_agent_ref s ≡ ok (record { name = s; version = [] })
unfolding parse_agent_ref parse_parts
parse_parts-name [] h = absurd (unfold valid_agent_name in ground arith)
parse_parts-name (c ∷ s) h = rw (index_byte_none at_sign (c ∷ s) (name-plain (c ∷ s) h)) (rw h refl)

parse_parts-version :
    (s v : Text)
    → valid_agent_name s ≡ true
    → valid_agent_version v ≡ true
    → parse_agent_ref (s ++ at_sign ∷ v) ≡ ok (record { name = s; version = v })
unfolding parse_agent_ref parse_parts
parse_parts-version [] v h k = absurd (unfold valid_agent_name in ground arith)
parse_parts-version (c ∷ s) v h k =
    rw (index_byte_complete at_sign (c ∷ s) v (name-plain (c ∷ s) h))
      (rw (take-length (c ∷ s) (at_sign ∷ v), drop-after (c ∷ s) at_sign v) (rw (h, k) refl))

print_bare : (a : AgentRef) → a.version ≡ [] → print_ref a ≡ a.name
unfolding print_ref
print_bare a e = ground (arith, text_beq_iff a.version [])

print_versioned : (a : AgentRef) → a.version ≢ [] → print_ref a ≡ a.name ++ at_sign ∷ a.version
unfolding print_ref
print_versioned a ne = ground (arith, text_beq_iff a.version [])

version-ne_nil : (v : Text) → valid_agent_version v ≡ true → v ≢ []
unfolding valid_agent_version
version-ne_nil [] h e = ground arith
version-ne_nil (c ∷ v) h e = cc

-- Parsing what is printed of an allowed reference gives the reference back.
pub parse-print : (a : AgentRef) → IsRef a → parse_agent_ref (print_ref a) ≡ ok a
parse-print a r = elim r.version_ok [
  | inl e ↦ rw (print_bare a e) (
      parse_parts-name a.name r.name_ok
      ∙ ap (λ v. ok (record { name = a.name; version = v })) (sym e))
  | inr v ↦
      rw (print_versioned a (version-ne_nil a.version v))
        (parse_parts-version a.name a.version r.name_ok v)
]

parse_parts-none :
    (s : Text) (a : AgentRef)
    → parse_parts s none ≡ ok a
    → (valid_agent_name a.name ≡ true) × (a.name ≡ s) × (a.version ≡ [])
unfolding parse_parts
parse_parts-none s a h = ground arith

parse_parts-some :
    (s : Text) (i : ℕ) (a : AgentRef)
    → parse_parts s (some i) ≡ ok a
    → (valid_agent_name a.name ≡ true)
      × (valid_agent_version a.version ≡ true)
      × (a.name ≡ take i s)
      × (a.version ≡ drop (i + 1) s)
unfolding parse_parts
parse_parts-some s i a h = ground arith

-- What is parsed is an allowed reference, and printing it gives the text back.
pub print-parse : (s : Text) (a : AgentRef) → parse_agent_ref s ≡ ok a → IsRef a × (print_ref a ≡ s)
unfolding parse_agent_ref
print-parse [] a h = cc
print-parse (c ∷ s) a h = elim (Option-cases (index (c ∷ s) (codes "@"))) [
  | inl e ↦
      let (name_ok, name, version) = parse_parts-none (c ∷ s) a (rw e at h) in
      (record { name_ok = name_ok; version_ok = inl version }, print_bare a version ∙ name)
  | inr (i, e) ↦
      let (name_ok, version_ok, name, version) = parse_parts-some (c ∷ s) i a (rw e at h) in
      (
        record { name_ok = name_ok; version_ok = inr version_ok },
        print_versioned a (version-ne_nil a.version version_ok)
            ∙ rw (name, version) (sym (index_byte_sound at_sign (c ∷ s) i e)),
      )
]
