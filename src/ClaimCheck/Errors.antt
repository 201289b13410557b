-- ===== src/ClaimCheck/Errors.antt =====
-- claim-check/errors.ts: what the claim-check client throws. The messages, which are for a reader,
-- are left out.
use ankusa.Prelude.{ℕ, Bool, true, false}
use ankusa.Json.{Json}

pub data ClaimCheckError : Type 0 where
  invalid_claim_ref : ClaimCheckError
  claim_not_found : ClaimCheckError
  claim_rejected : (status : ℕ) → Json → ClaimCheckError
  claim_integrity : ClaimCheckError
  claim_check_unavailable : ClaimCheckError

abbrev pub retryable : ClaimCheckError → Bool
retryable invalid_claim_ref = false
retryable claim_not_found = false
retryable (claim_rejected status body) = false
retryable claim_integrity = false
retryable claim_check_unavailable = true
