-- ===== src/Auth/Samples.antt =====
-- Two tokens.
use go_sdk.Prelude.{◌≡◌, refl, [], ◌∷◌, Text, text_beq, text_eq, codes, Dict, lookup, UniqueKeys}
use go_sdk.Auth.{static_bearer}
use go_sdk.Auth.Lookup.{answer, static_bearer-lookup}

abbrev tokens : Dict Text Text
tokens = (codes "t1", codes "ann") ∷ (codes "t2", codes "bob") ∷ []

tokens-UniqueKeys : UniqueKeys tokens
unfolding lookup text_beq
tokens-UniqueKeys = (refl, (refl, tt))

static_bearer-lookup_example :
    static_bearer tokens (codes "t2") ≡ answer (lookup (codes "t2") tokens)
static_bearer-lookup_example = static_bearer-lookup tokens (codes "t2") tokens-UniqueKeys
