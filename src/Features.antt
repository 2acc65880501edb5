-- ===== src/Features.antt =====
-- features.go: negotiation of the feature flags.
pub mod Negotiate
mod Samples
use go_sdk.Prelude.{
  Bool, true, false, List, [], ◌∷◌, Text, text_beq, text_eq, contains, codes, if◌then◌else◌,
}

abbrev pub is_nil : List Text → Bool
is_nil [] = true
is_nil (x ∷ xs) = false

-- The loop over `a`: `seen` are the flags taken so far.
unfoldable pub intersect_loop : List Text → List Text → List Text → List Text
intersect_loop want seen [] = []
intersect_loop want seen (x ∷ a) =
    let skip = intersect_loop want seen a in
    let take_it = x ∷ intersect_loop want (x ∷ seen) a in
    if contains x want then if contains x seen then skip else take_it else skip

unfoldable pub intersect_features : List Text → List Text → List Text
intersect_features [] b = []
intersect_features (x ∷ a) b = if is_nil b then [] else intersect_loop b [] (x ∷ a)

abbrev pub provisioner_gated_features : List Text
provisioner_gated_features = codes "provisioned_credentials" ∷ codes "model.use" ∷ []

unfoldable pub requires_provisioner : Text → Bool
requires_provisioner name = contains name provisioner_gated_features

unfoldable pub has_feature : List Text → Text → Bool
has_feature [] name = false
has_feature (f ∷ features) name = if text_beq f name then true else has_feature features name

-- server.go: the flags that a server without a provisioner may advertise.
unfoldable pub filter_features : Bool → List Text → List Text
filter_features has_provisioner [] = []
filter_features has_provisioner (f ∷ rest) =
    if requires_provisioner f
    then if has_provisioner
      then f ∷ filter_features has_provisioner rest
      else filter_features has_provisioner rest
    else f ∷ filter_features has_provisioner rest
