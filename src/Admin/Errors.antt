-- ===== src/Admin/Errors.antt =====
-- admin/errors.ts: what the admin client throws. The messages, which are for a reader, are left out.
use ankusa.Prelude.{ℕ, Bool, true, false, Option}
use ankusa.Json.{Json}

pub data AdminError : Type 0 where
  role_not_enabled : (role : Option Json) → AdminError
  admin_rejected : (status : ℕ) (code scope : Option Json) → AdminError
  admin_unavailable : AdminError

abbrev pub retryable : AdminError → Bool
retryable (role_not_enabled role) = false
retryable (admin_rejected status code scope) = false
retryable admin_unavailable = true
