-- ===== src/Ingress/Error.antt =====
-- drawbridge_ingress/src/error.rs. A message keeps its text where the model has it; the errors of
-- hyper are told apart from the others only, and how one is displayed is an argument.
use Prim.Native.String.{◌++◌ as concat}
use drawbridge_ingress.Prelude.{◌≡◌, refl, Bool, true, false}
use drawbridge_ingress.Prelude.Maps.{String}

pub data Code : Type 0 where
  non_existent_host could_not_reach_backend websocket_upgrade_error : Code
  internal_server_error could_not_generate_certificate : Code

pub data IngressLoadBalancerError : Type 0 where
  general : Code → String → IngressLoadBalancerError
  other : String → IngressLoadBalancerError
  hyper_error : IngressLoadBalancerError

-- `fmt` of `Code`.
unfoldable display_code : Code → String
display_code non_existent_host = "NonExistentHost"
display_code could_not_reach_backend = "CouldNotReachBackend"
display_code websocket_upgrade_error = "WebsocketUpgradeError"
display_code internal_server_error = "InternalServerError"
display_code could_not_generate_certificate = "CouldNotGenerateCertificate"

-- `fmt` of an error, where an error of hyper is displayed as `hyper`.
unfoldable display : (hyper : String) → IngressLoadBalancerError → String
unfolding display_code
display hyper (general code msg) = concat "Error: " (concat (display_code code) (concat ": " msg))
display hyper (other msg) = concat "Error: " msg
display hyper hyper_error = concat "Error: " hyper

-- `source`: whether there is an error of hyper behind it.
unfoldable has_source : IngressLoadBalancerError → Bool
has_source (general code msg) = false
has_source (other msg) = false
has_source hyper_error = true

-- An error that was made by `general` is displayed as one that is not, with the code in its text.
display-other :
    (hyper msg : String) (code : Code)
    → display hyper (general code msg)
      ≡ display hyper (other (concat (display_code code) (concat ": " msg)))
unfolding display
display-other hyper msg code = refl
