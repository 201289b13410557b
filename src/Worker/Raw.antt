-- ===== src/Worker/Raw.antt =====
-- What the workers of the examples read of a message that they parse themselves, and how they fetch its
-- body: `resolveBody` and its tests, whose values are those of `JSON.parse`.
use ankusa.Prelude.{
  if◌then◌else◌, zero, Bool, true, false, Option, none, some, [], Text, Bytes, Result, ok, err,
  codes, ◌>>=◌,
}
use ankusa.Json.{pos, whole, Number, Json, null, bool, number, str}
use ankusa.Runtime.{Runtime}
use ankusa.Http.{Gateway}
use ankusa.ClaimCheck.Errors.{ClaimCheckError, invalid_claim_ref}
use ankusa.ClaimCheck.Ref.{ParsedClaimRef, parse_claim_ref}
use ankusa.ClaimCheck.Client.{redeem}

-- What is thrown: a worker's own `PermanentError`, a `ClaimCheckError`, or anything else.
pub data Failure : Type 0 where
  permanent : Failure
  claim_failure : ClaimCheckError → Failure
  unknown : Failure

-- What reading a message needs of the SDK, and of what is not part of the repository.
pub record Reader : Type 0 where
  pub rt : Runtime
  pub gateway : Gateway Bytes
  -- `String(n)`
  pub number_text : Number → Text
  -- `String(value)` of an object or an array; `none` is the exception, for a `toString` that is no
  -- function
  pub object_text : Json → Option Text
  -- `Buffer.from(value, "base64")`; `none` is the exception
  pub buffer_from : Json → Option Bytes
  -- `buffer.toString("utf8")`
  pub utf8_text : Bytes → Text

-- Whether a value counts as true in a test.
abbrev pub is_truthy : Option Json → Bool
is_truthy none = false
is_truthy (some null) = false
is_truthy (some (bool b)) = b
is_truthy (some (number (whole (pos zero)))) = false
is_truthy (some (str [])) = false
is_truthy (some _) = true

abbrev pub or_thrown {ℓ} : {A : Type ℓ} → Option A → Result Failure A
or_thrown none = err unknown
or_thrown (some a) = ok a

-- The text of a value, as a regular expression and a template read it.
abbrev pub ref_text : Reader → Json → Result Failure Text
ref_text r (str t) = ok t
ref_text r null = ok (codes "null")
ref_text r (bool b) = ok (if b then codes "true" else codes "false")
ref_text r (number n) = ok (r.number_text n)
ref_text r v = or_thrown (r.object_text v)

-- A value in a template.
abbrev pub shown : Reader → Option Json → Result Failure Text
shown r none = ok (codes "undefined")
shown r (some v) = ref_text r v

abbrev pub claim_result {ℓ} : {A : Type ℓ} → Result ClaimCheckError A → Result Failure A
claim_result (ok a) = ok a
claim_result (err e) = err (claim_failure e)

abbrev pub parsed_ref : Reader → Json → Result Failure ParsedClaimRef
parsed_ref r claim = do urn ← ref_text r claim; claim_result (parse_claim_ref urn)

-- A digest that is not a string is refused by `redeem`, after the ref, with the digest's text.
abbrev pub redeem_value : Reader → Json → Json → Result Failure Bytes
redeem_value r claim (str sha256) = do
  urn ← ref_text r claim
  claim_result ((redeem r.rt r.gateway urn sha256).0)
redeem_value r claim sha256 = do
  parsed ← parsed_ref r claim
  refused ← ref_text r sha256
  err (claim_failure invalid_claim_ref)

abbrev pub inline_bytes : Reader → Json → Result Failure Bytes
inline_bytes r value = elim (r.buffer_from value) [ none ↦ err unknown | some bytes ↦ ok bytes ]

abbrev pub or_empty_text : Option Json → Json
or_empty_text none = str []
or_empty_text (some null) = str []
or_empty_text (some v) = v
