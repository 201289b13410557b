-- ===== src/Message/Errors.antt =====
-- `InvalidMessageError` and its codes.
use ankusa.Prelude.{String, Bool, false, Option, none, some}

pub data InvalidMessageCode : Type 0 where
  invalid_json not_an_object unsupported_version invalid_field ambiguous_body missing_body :
      InvalidMessageCode
  invalid_body_base64 size_mismatch integrity tenant_mismatch : InvalidMessageCode

-- `name` and `message` are for a reader and are left out.
pub record InvalidMessageError : Type 0 where
  pub code : InvalidMessageCode
  pub field : Option String
  pub retryable : Bool

abbrev pub invalid : InvalidMessageCode → InvalidMessageError
invalid code = record { code = code; field = none; retryable = false }

abbrev pub invalid_at : String → InvalidMessageError
invalid_at field = record { code = invalid_field; field = some field; retryable = false }
