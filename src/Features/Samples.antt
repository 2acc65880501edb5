-- ===== src/Features/Samples.antt =====
-- A client that offers "ack" and "heartbeat" to a server that has "heartbeat" and "progress".
use go_sdk.Prelude.{◌≡◌, ◌&&◌, List, [], ◌∷◌, Text, codes}
use go_sdk.Features.{intersect_features, has_feature}
use go_sdk.Features.Negotiate.{has_feature-intersect_features}

abbrev offered : List Text
offered = codes "ack" ∷ codes "heartbeat" ∷ []

abbrev supported : List Text
supported = codes "heartbeat" ∷ codes "progress" ∷ []

has_feature-intersect_features_example :
    has_feature (intersect_features offered supported) (codes "heartbeat")
    ≡ (has_feature offered (codes "heartbeat") && has_feature supported (codes "heartbeat"))
has_feature-intersect_features_example =
    has_feature-intersect_features offered supported (codes "heartbeat")
