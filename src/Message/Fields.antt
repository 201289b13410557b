-- ===== src/Message/Fields.antt =====
-- The checks of `decodeMessage` on single fields, in message/index.ts.
pub mod Laws
use ankusa.Prelude.{
  ℕ, String, Bool, true, false, ◌&&◌, ◌||◌, Option, none, some, List, [], ◌∷◌, Text, leb,
  if◌then◌else◌, Result, ok, err, ◌>>=◌, ◌>>◌, require,
}
use ankusa.Json.{ℤ, pos, whole, Json, null, bool, number, str, obj, Props, end, prop, get}
use ankusa.Regex.{is_run}
use ankusa.Message.Errors.{InvalidMessageError, unsupported_version, invalid, invalid_at}

pub record Verification : Type 0 where
  pub status : Text
  pub flagged : Bool

-- `[0-9a-f]`
unfoldable pub is_lower_hex : ℕ → Bool
is_lower_hex c = leb b'0' c && leb c b'9' || leb b'a' c && leb c b'f'

-- `/^[0-9a-f]{64}$/.test(text)`
unfoldable pub is_sha256 : Text → Bool
unfolding is_lower_hex
is_sha256 = is_run is_lower_hex 64 64

abbrev pub min_supported_version : ℕ
min_supported_version = 1

abbrev pub max_supported_version : ℕ
max_supported_version = 2

unfoldable pub decode_version : Option Json → Result InvalidMessageError ℕ
decode_version (some (number (whole (pos v)))) =
    if leb min_supported_version v && leb v max_supported_version
    then ok v
    else err (invalid unsupported_version)
decode_version _ = err (invalid unsupported_version)

-- `typeof id !== "string" || id.length === 0`
unfoldable pub decode_id : Option Json → Result InvalidMessageError Text
decode_id (some (str (c ∷ s))) = ok (c ∷ s)
decode_id _ = err (invalid_at "id")

unfoldable pub decode_source_id : Option Json → Result InvalidMessageError Text
decode_source_id (some (str s)) = ok s
decode_source_id _ = err (invalid_at "source_id")

unfoldable pub decode_received_at : Option Json → Result InvalidMessageError ℤ
decode_received_at (some (number (whole z))) = ok z
decode_received_at _ = err (invalid_at "received_at")

unfoldable pub decode_size : Option Json → Result InvalidMessageError ℕ
decode_size (some (number (whole (pos n)))) = ok n
decode_size _ = err (invalid_at "size")

-- The keys whose values are strings, null or absent, in the order in which they are checked.
abbrev pub nullable_keys : List String
nullable_keys =
    "tenant_id" ∷ "content_type" ∷ "dedupe_key" ∷ "replay_id" ∷ "idempotency_key" ∷ "traceparent"
    ∷ "tracestate" ∷ "instance" ∷ "region" ∷ "event_type" ∷ []

-- `value === undefined || value === null || typeof value === "string"`
abbrev pub is_nullable_text : Option Json → Bool
is_nullable_text none = true
is_nullable_text (some null) = true
is_nullable_text (some (str t)) = true
is_nullable_text (some _) = false

unfoldable pub check_nullable : List String → Props → Result InvalidMessageError (Unit {0})
check_nullable [] raw = ok tt
check_nullable (key ∷ keys) raw = do
  require (is_nullable_text (get key raw)) (invalid_at key)
  check_nullable keys raw

-- `(raw[key] ?? null) as string | null`, where `raw[key]` has passed the check above.
abbrev pub nullable_text : Option Json → Option Text
nullable_text (some (str t)) = some t
nullable_text _ = none

-- Every header's value is a string.
unfoldable pub header_texts : Props → Result InvalidMessageError (List (String × Text))
header_texts end = ok []
header_texts (prop name (str t) ps) = do rest ← header_texts ps; ok ((name, t) ∷ rest)
header_texts (prop name _ ps) = err (invalid_at "headers")

unfoldable pub decode_headers : Option Json → Result InvalidMessageError (List (String × Text))
unfolding header_texts
decode_headers none = ok []
decode_headers (some (obj ps)) = header_texts ps
decode_headers (some _) = err (invalid_at "headers")

unfoldable pub decode_sha256 : Option Json → Result InvalidMessageError (Option Text)
decode_sha256 none = ok none
decode_sha256 (some (str t)) = if is_sha256 t then ok (some t) else err (invalid_at "sha256")
decode_sha256 (some _) = err (invalid_at "sha256")

abbrev pub verification_of :
    Option Json → Option Json → Result InvalidMessageError (Option Verification)
verification_of (some (str (c ∷ s))) (some (bool flagged)) =
    ok (some (record { status = c ∷ s; flagged = flagged }))
verification_of _ _ = err (invalid_at "verification")

unfoldable pub decode_verification : Option Json → Result InvalidMessageError (Option Verification)
decode_verification none = ok none
decode_verification (some null) = ok none
decode_verification (some (obj ps)) = verification_of (get "status" ps) (get "flagged" ps)
decode_verification (some _) = err (invalid_at "verification")
