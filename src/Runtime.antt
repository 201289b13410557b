-- ===== src/Runtime.antt =====
-- What the SDK calls of the JavaScript runtime and of `node:crypto`, as one parameter of the
-- functions that use it.
use ankusa.Prelude.{ℕ, String, Option, Text, Bytes}
use ankusa.Json.{Json}

pub record Runtime : Type 0 where
  -- `JSON.parse`; `none` is the exception
  pub parse_json : Text → Option Json
  -- `new TextDecoder().decode(bytes)`
  pub decode_utf8 : Bytes → Text
  -- `Buffer.from(text, "utf8")`
  pub encode_utf8 : Text → Bytes
  -- `createHash("sha256").update(bytes).digest("hex")`
  pub sha256_hex : Bytes → Text
  -- `createHmac("sha256", key).update(bytes).digest("base64")`
  pub hmac_sha256_base64 : Bytes → Bytes → Text
  -- `name.toLowerCase()`
  pub to_lower_case : String → String
  -- `Number(text)` of a text of decimal digits
  pub to_number : Text → ℕ

-- A string or its UTF-8 bytes, as the decoders take their input.
pub data Input : Type 0 where
  text : Text → Input
  bytes : Bytes → Input

-- `typeof data === "string" ? data : new TextDecoder().decode(data)`
abbrev pub input_text : Runtime → Input → Text
input_text rt (text t) = t
input_text rt (bytes b) = rt.decode_utf8 b
