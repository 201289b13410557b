-- ===== src/Webhook/Headers.antt =====
-- webhook/headers.ts: the headers of one delivery.
pub mod Laws
mod Tests
use ankusa.Prelude.{
  ℕ, String, Bool, Option, none, some, List, [], ◌∷◌, map, Text, codes, text_eq, ◌==◌,
  if◌then◌else◌, Result, ok, err,
}
use ankusa.Runtime.{Runtime}
use ankusa.Regex.{is_run}
use ankusa.ClaimCheck.Ref.{is_digit}
use ankusa.Message.Fields.{Verification, is_sha256}

-- `string | string[] | undefined`
pub data HeaderValue : Type 0 where
  undefined : HeaderValue
  single : Text → HeaderValue
  several : List Text → HeaderValue

-- A `Headers`, by its entries, or a plain object, by its own.
pub data HeaderSource : Type 0 where
  headers : List (String × Text) → HeaderSource
  object : List (String × HeaderValue) → HeaderSource

pub record HookHeaders : Type 0 where
  pub id : Text
  pub source : Text
  pub tenant : Option Text
  pub content_type : Option Text
  pub dedupe_key : Option Text
  pub replay_id : Option Text
  pub idempotency_key : Option Text
  pub received_at : Option ℕ
  pub body_sha256 : Option Text
  pub verification : Option Verification

pub data HookIdError : Type 0 where
  missing_hook_id : HookIdError

-- A `Map` that is only written and read by key, the last write in front. A value may be `undefined`.
abbrev pub Lowered : Type 0
Lowered = List (String × Option Text)

-- `lowered.get(name)`; `none` is `undefined`.
unfoldable pub get : String → Lowered → Option Text
get name [] = none
get name ((k, value) ∷ m) = if k == name then value else get name m

unfoldable pub header_entries : HeaderSource → List (String × HeaderValue)
header_entries (headers es) = map (λ e. (e.0, single e.1)) es
header_entries (object es) = es

-- `Array.isArray(value) ? value[0] : value`
unfoldable pub first_value : HeaderValue → Option Text
first_value undefined = none
first_value (single t) = some t
first_value (several []) = none
first_value (several (t ∷ ts)) = some t

-- The loop over the entries.
unfoldable pub lower_from : Runtime → Lowered → List (String × HeaderValue) → Lowered
unfolding first_value
lower_from rt lowered [] = lowered
lower_from rt lowered ((name, undefined) ∷ es) = lower_from rt lowered es
lower_from rt lowered ((name, value) ∷ es) =
    lower_from rt ((rt.to_lower_case name, first_value value) ∷ lowered) es

unfoldable pub lower_headers : Runtime → HeaderSource → Lowered
unfolding header_entries lower_from
lower_headers rt source = lower_from rt [] (header_entries source)

-- `value || null`
unfoldable pub non_empty : Option Text → Option Text
non_empty none = none
non_empty (some []) = none
non_empty (some (c ∷ s)) = some (c ∷ s)

-- `value ?? ""`
abbrev pub or_blank : Option Text → Text
or_blank none = []
or_blank (some t) = t

unfoldable pub parse_received_at : Runtime → Option Text → Option ℕ
parse_received_at rt none = none
parse_received_at rt (some t) = if is_run is_digit 1 15 t then some (rt.to_number t) else none

unfoldable pub parse_body_sha256 : Option Text → Option Text
parse_body_sha256 none = none
parse_body_sha256 (some t) = if is_sha256 t then some t else none

-- `value === text`
abbrev is_text : Option Text → Text → Bool
is_text none t = Bool.false
is_text (some s) t = text_eq s t

abbrev flagged_status : Option Text → Option Text → Option Verification
flagged_status none flagged = none
flagged_status (some status) flagged =
    some (record { status = status; flagged = is_text flagged (codes "true") })

unfoldable pub parse_verification_headers : Lowered → Option Verification
unfolding non_empty get
parse_verification_headers lowered =
    flagged_status (non_empty (get "x-ankusa-verification" lowered))
      (get "x-ankusa-verification-flagged" lowered)

abbrev identified : Runtime → Lowered → Option Text → Result HookIdError HookHeaders
identified rt lowered none = err missing_hook_id
identified rt lowered (some id) = ok (record {
  id = id;
  source = or_blank (get "x-ankusa-source" lowered);
  tenant = get "x-ankusa-tenant" lowered;
  content_type = get "content-type" lowered;
  dedupe_key = non_empty (get "x-ankusa-dedupe-key" lowered);
  replay_id = non_empty (get "x-ankusa-replay-id" lowered);
  idempotency_key = non_empty (get "x-ankusa-idempotency-key" lowered);
  received_at = parse_received_at rt (get "x-ankusa-received-at" lowered);
  body_sha256 = parse_body_sha256 (get "x-ankusa-body-sha256" lowered);
  verification = parse_verification_headers lowered;
})

-- An absent and an empty id are one error.
unfoldable pub parse_headers : Runtime → HeaderSource → Result HookIdError HookHeaders
unfolding lower_headers get non_empty
parse_headers rt source =
    let lowered = lower_headers rt source in
    identified rt lowered (non_empty (get "x-ankusa-id" lowered))
