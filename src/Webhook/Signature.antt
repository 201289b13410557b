-- ===== src/Webhook/Signature.antt =====
-- webhook/signature.ts: the Standard Webhooks signature of one delivery.
pub mod Laws
pub mod Tests
use ankusa.Prelude.{
  ℕ, ◌+◌, ◌-◌, String, Bool, true, false, ◌&&◌, not, Option, none, some, List, [], ◌∷◌, ◌++◌, Text,
  Bytes, codes, length, all, any, text_eq, ltb, eqb, if◌then◌else◌, Result, ok, err, ◌>>=◌, ◌>>◌,
  require,
}
use ankusa.Runtime.{Runtime, Input, text, bytes}
use ankusa.Regex.{strip}
use ankusa.Base64.{is_base64, from_base64}
use ankusa.ClaimCheck.Ref.{is_digit}
use ankusa.Webhook.Headers.{HeaderSource, Lowered, get, lower_headers, non_empty}

pub data InvalidSignatureCode : Type 0 where
  invalid_secret missing_header invalid_timestamp : InvalidSignatureCode
  timestamp_out_of_tolerance no_matching_signature : InvalidSignatureCode

-- The message is for a reader and is left out.
pub record InvalidSignatureError : Type 0 where
  pub code : InvalidSignatureCode
  pub field : Option String
  pub retryable : Bool

abbrev pub refused : InvalidSignatureCode → Option String → InvalidSignatureError
refused code field = record { code = code; field = field; retryable = false }

-- `string | string[]`
pub data Secrets : Type 0 where
  secret : Text → Secrets
  rotation : List Text → Secrets

pub record VerifySignatureOptions : Type 0 where
  pub headers : HeaderSource
  pub body : Input
  pub secrets : Secrets
  pub tolerance_seconds : Option ℕ
  pub now : Option ℕ

pub record VerifiedSignature : Type 0 where
  pub id : Text
  pub timestamp : ℕ

-- `Array.isArray(secrets) ? secrets : [secrets]`
abbrev pub secret_list : Secrets → List Text
secret_list (secret s) = s ∷ []
secret_list (rotation ss) = ss

abbrev pub bad_secret : InvalidSignatureError
bad_secret = refused invalid_secret none

-- The key behind `whsec_`, which must be base64.
abbrev pub encoded_key : Text → Result InvalidSignatureError Bytes
encoded_key [] = err bad_secret
encoded_key (c ∷ s) = if is_base64 (c ∷ s) then ok (from_base64 (c ∷ s)) else err bad_secret

-- A secret without the prefix is its own UTF-8 bytes.
abbrev pub plain_key : Runtime → Text → Result InvalidSignatureError Bytes
plain_key rt [] = err bad_secret
plain_key rt (c ∷ s) = ok (rt.encode_utf8 (c ∷ s))

unfoldable pub decode_secret : Runtime → Text → Result InvalidSignatureError Bytes
unfolding strip
decode_secret rt s = elim (strip (codes "whsec_") s) [
  | some encoded ↦ encoded_key encoded
  | none ↦ plain_key rt s
]

unfoldable pub decode_each : Runtime → List Text → Result InvalidSignatureError (List Bytes)
unfolding decode_secret
decode_each rt [] = ok []
decode_each rt (s ∷ ss) = do ok ((← decode_secret rt s) ∷ (← decode_each rt ss))

unfoldable pub decode_secrets : Runtime → List Text → Result InvalidSignatureError (List Bytes)
unfolding decode_each
decode_secrets rt [] = err bad_secret
decode_secrets rt (s ∷ ss) = decode_each rt (s ∷ ss)

abbrev pub present : String → Option Text → Result InvalidSignatureError Text
present name none = err (refused missing_header (some name))
present name (some value) = ok value

-- A header that is present and not empty.
unfoldable pub required : Lowered → String → Result InvalidSignatureError Text
unfolding non_empty
required lowered name = present name (non_empty (get name lowered))

-- `/^[0-9]+$/.test(text)`
abbrev pub is_digits : Text → Bool
is_digits [] = false
is_digits (c ∷ s) = all is_digit (c ∷ s)

-- `Math.abs(a - b)`
abbrev pub distance : ℕ → ℕ → ℕ
distance a b = (a - b) + (b - a)

-- `value ?? default`
abbrev pub or_default : Option ℕ → ℕ → ℕ
or_default none d = d
or_default (some n) d = n

-- `signature.split(" ")`
abbrev pub extend : ℕ → List Text → List Text
extend c [] = (c ∷ []) ∷ []
extend c (t ∷ ts) = (c ∷ t) ∷ ts

unfoldable pub split_spaces : Text → List Text
split_spaces [] = [] ∷ []
split_spaces (c ∷ s) = let rest = split_spaces s in if eqb c b' ' then [] ∷ rest else extend c rest

-- The entries that start with `v1,`, without it, as UTF-8 bytes.
unfoldable pub candidates : Runtime → List Text → List Bytes
unfolding strip
candidates rt [] = []
candidates rt (entry ∷ entries) = elim (strip (codes "v1,") entry) [
  | none ↦ candidates rt entries
  | some sig ↦ rt.encode_utf8 sig ∷ candidates rt entries
]

-- `timingSafeEqual` compares buffers of one length.
abbrev pub same_bytes : Bytes → Bytes → Bool
same_bytes a b = eqb (length a) (length b) && text_eq a b

abbrev pub body_bytes : Runtime → Input → Bytes
body_bytes rt (text t) = rt.encode_utf8 t
body_bytes rt (bytes b) = b

-- `<webhook-id>.<webhook-timestamp>.<body>`
abbrev pub signed_bytes : Runtime → Text → Text → Bytes → Bytes
signed_bytes rt id timestamp body =
    rt.encode_utf8 (id ++ (codes "." ++ (timestamp ++ codes "."))) ++ body

abbrev pub expected_bytes : Runtime → Bytes → Bytes → Bytes
expected_bytes rt key signed = rt.encode_utf8 (rt.hmac_sha256_base64 key signed)

unfoldable pub is_matched : Runtime → List Bytes → Bytes → List Bytes → Bool
is_matched rt keys signed sigs =
    any (λ key. any (λ sig. same_bytes sig (expected_bytes rt key signed)) sigs) keys

-- `clock` is `Math.floor(Date.now() / 1000)`.
unfoldable pub verify_signature :
    Runtime → ℕ → VerifySignatureOptions → Result InvalidSignatureError VerifiedSignature
verify_signature rt clock options = do
  keys ← decode_secrets rt (secret_list options.secrets)
  let lowered = lower_headers rt options.headers
  id ← required lowered "webhook-id"
  raw_timestamp ← required lowered "webhook-timestamp"
  signature ← required lowered "webhook-signature"
  require (is_digits raw_timestamp) (refused invalid_timestamp (some "webhook-timestamp"))
  let timestamp = rt.to_number raw_timestamp
  let now = or_default options.now clock
  let tolerance = or_default options.tolerance_seconds 300
  require (not (ltb tolerance (distance now timestamp)))
      (refused timestamp_out_of_tolerance (some "webhook-timestamp"))
  let signed = signed_bytes rt id raw_timestamp (body_bytes rt options.body)
  require (is_matched rt keys signed (candidates rt (split_spaces signature)))
      (refused no_matching_signature (some "webhook-signature"))
  ok (record { id = id; timestamp = timestamp })
