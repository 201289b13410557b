-- ===== src/ClaimCheck/Client.antt =====
-- claim-check/client.ts: redeeming a ref through the gateway.
pub mod Laws
mod Tests
use ankusa.Prelude.{
  ℕ, String, Bool, true, false, ◌&&◌, ◌||◌, not, Option, none, some, List, [], ◌∷◌, Text, Bytes,
  leb, ltb, eqb, text_eq, if◌then◌else◌, Result, ok, err, require,
}
use ankusa.Json.{Json, str, Props, end, prop}
use ankusa.Runtime.{Runtime}
use ankusa.Http.Options.{Config, ClientOptions, gateway_of}
use ankusa.Http.{Request, Answer, Outcome, failed, answered, Gateway, Call, lift, request, ◌>>=◌}
use ankusa.Http
use ankusa.ClaimCheck.Errors.{
  ClaimCheckError, invalid_claim_ref, claim_not_found, claim_rejected, claim_integrity,
  claim_check_unavailable,
}
use ankusa.ClaimCheck.Ref.{Proof, ParsedClaimRef, parse_claim_ref}
use ankusa.Message.Fields.{is_sha256}

-- A v2 ref's expiry and signature ride the query.
abbrev pub proof_query : Option Proof → Props
proof_query none = end
proof_query (some p) = prop "exp" (str p.exp) (prop "sig" (str p.sig) end)

unfoldable pub claim_request : ParsedClaimRef → Request
claim_request parsed = record {
  method = Http.get;
  template = "/v1/claims/{tenant_id}/{claim_id}";
  path = prop "tenant_id" (str parsed.tenant_id) (prop "claim_id" (str parsed.claim_id) end);
  query = proof_query parsed.proof;
  body = none;
}

-- `errorBody === undefined ? "" : errorBody`
abbrev pub error_body : Option Json → Json
error_body none = str []
error_body (some body) = body

-- `Buffer.from(data ?? new ArrayBuffer(0))`
abbrev pub content_bytes : Option Bytes → Bytes
content_bytes none = []
content_bytes (some data_bytes) = data_bytes

-- What `fetchBytes` makes of an answer.
unfoldable pub read_answer : Answer Bytes → Result ClaimCheckError Bytes
read_answer a =
    if eqb a.status 404
    then err claim_not_found
    else if eqb a.status 408 || eqb a.status 429
    then err claim_check_unavailable
    else if leb 400 a.status && ltb a.status 500
    then err (claim_rejected a.status (error_body a.error))
    else if not (eqb a.status 200)
    then err claim_check_unavailable
    else ok (content_bytes a.content)

unfoldable pub read_outcome : Outcome Bytes → Result ClaimCheckError Bytes
unfolding read_answer
read_outcome failed = err claim_check_unavailable
read_outcome (answered a) = read_answer a

unfoldable pub fetch_bytes : Gateway Bytes → ParsedClaimRef → Call ClaimCheckError Bytes
unfolding read_outcome claim_request
fetch_bytes gateway parsed = request gateway (claim_request parsed) read_outcome

unfoldable pub verify_integrity : Runtime → Text → Bytes → Result ClaimCheckError Bytes
verify_integrity rt expected bytes =
    if text_eq (rt.sha256_hex bytes) expected then ok bytes else err claim_integrity

-- The ref and the digest are checked before the request, the bytes after it.
unfoldable pub redeem : Runtime → Gateway Bytes → Text → Text → Call ClaimCheckError Bytes
unfolding fetch_bytes verify_integrity
redeem rt gateway ref sha256 = do
  parsed ← lift (parse_claim_ref ref)
  _ ← lift (require (is_sha256 sha256) invalid_claim_ref)
  bytes ← fetch_bytes gateway parsed
  lift (verify_integrity rt sha256 bytes)

-- Anything but a `200` with a body is an unavailable gateway.
unfoldable pub read_health : Outcome Json → Result ClaimCheckError Json
read_health failed = err claim_check_unavailable
read_health (answered a) = elim a.content [
  | none ↦ err claim_check_unavailable
  | some content ↦ if eqb a.status 200 then ok content else err claim_check_unavailable
]

unfoldable pub health : Gateway Json → Call ClaimCheckError Json
unfolding read_health
health gateway =
    request gateway
      (record { method = Http.get; template = "/health"; path = end; query = end; body = none })
      read_health

-- What `createClaimCheckClient` returns.
pub record ClaimCheckClient : Type 0 where
  pub redeem : (ref sha256 : Text) → Call ClaimCheckError Bytes
  pub health : Call ClaimCheckError Json

-- The gateways of `createClient`; `claims` is that of the answers that
-- are read as bytes.
unfoldable pub create_claim_check_client :
    Runtime → (claims : Gateway Bytes) → Gateway Json → ClaimCheckClient
unfolding redeem health
create_claim_check_client rt claims gateway = record {
  redeem = redeem rt claims;
  health = health gateway;
}

abbrev pub ClaimCheckClientOptions : (H F : Type 0) → Type 0
ClaimCheckClientOptions H F = ClientOptions H F

-- `createClaimCheckClient`, on the `createClient` that it calls.
abbrev pub claim_check_client :
    {H F : Type 0}
    → (create_client : (D : Type 0) → Config H F → Gateway D) → Runtime
    → ClaimCheckClientOptions H F
    → ClaimCheckClient
claim_check_client create_client rt options =
    create_claim_check_client rt (gateway_of (create_client Bytes) options)
      (gateway_of (create_client Json) options)
