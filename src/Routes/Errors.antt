-- ===== src/Routes/Errors.antt =====
-- routes/errors.ts: what the routes client throws. The texts of the messages that the SDK writes are
-- left out.
use ankusa.Prelude.{ℕ, Bool, true, false, Option}
use ankusa.Json.{Json}

-- What the body of a rejection says; `message` is `none` where the SDK writes its own.
pub record Rejection : Type 0 where
  pub code : Option Json
  pub field : Option Json
  pub message : Option Json
  pub conflicting_id : Option Json
  pub max_routes : Option Json
  pub scope : Option Json

pub data RoutesError : Type 0 where
  route_not_found : RoutesError
  invalid_route_id : (id : Json) → RoutesError
  routes_rejected : (status : ℕ) → Rejection → RoutesError
  routes_unavailable : RoutesError

abbrev pub retryable : RoutesError → Bool
retryable route_not_found = false
retryable (invalid_route_id id) = false
retryable (routes_rejected status rejection) = false
retryable routes_unavailable = true
