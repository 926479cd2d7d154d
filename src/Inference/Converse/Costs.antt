-- ===== src/Inference/Converse/Costs.antt =====
-- internal/services/inference/converse.go: what a request of a compatible dialect costs.
use orbit_api.Common.Result.{ok}
use orbit_api.Common.Str.{Str}
use orbit_api.Common.{◌≡◌}
use orbit_api.Inference.Converse.{Beyond}
use orbit_api.Inference.Dispatch.{ChatResult, ModelCatalogue}
use orbit_api.Inference.Request.{ConverseRequest}
use orbit_api.Inference.Bytes.{Bytes}

-- What a result of Converse may be by the Responses API: any that it gives.
abbrev pub BySomeCall : {F J S : Type 0} → Beyond F J S → ModelCatalogue → ChatResult → Type 0
BySomeCall {F} {J} {S} beyond entry r =
    (q : ConverseRequest F J) × (s : S) × ((beyond.call_mantle entry q s).0 ≡ ok r)
