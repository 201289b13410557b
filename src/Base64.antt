-- ===== src/Base64.antt =====
-- Standard base64: the pattern that message/index.ts and webhook/signature.ts test a text by, and
-- what Node's `Buffer.from(text, "base64")` and `buffer.toString("base64")` do.
mod Tests
pub mod Laws
use ankusa.Prelude.{
  ℕ, ◌+◌, ◌-◌, ◌*◌, ◌/◌, ◌%◌, Bool, true, false, ◌&&◌, ◌||◌, Option, none, some, List, [], ◌∷◌,
  Text, Bytes, ltb, leb, eqb, if◌then◌else◌,
}

-- `[A-Za-z0-9+/]`
unfoldable pub is_base64_char : ℕ → Bool
is_base64_char c =
    (leb b'A' c && leb c b'Z')
    || (leb b'a' c && leb c b'z')
    || (leb b'0' c && leb c b'9')
    || eqb c b'+'
    || eqb c b'/'

abbrev is_pair : ℕ → ℕ → Bool
is_pair a b = is_base64_char a && is_base64_char b

-- What the pattern's last group matches: `[..]{2}==`, `[..]{3}=` or nothing.
abbrev is_padded : ℕ → ℕ → ℕ → ℕ → Bool
is_padded a b c d = is_pair a b && (eqb c b'=' && eqb d b'=' || is_base64_char c && eqb d b'=')

-- `BASE64_PATTERN.test(text)`: whole groups of four, the last of which may be padded.
unfoldable pub is_base64 : Text → Bool
is_base64 [] = true
is_base64 (a ∷ b ∷ c ∷ d ∷ []) = is_pair a b && is_pair c d || is_padded a b c d
is_base64 (a ∷ b ∷ c ∷ d ∷ s) = is_pair a b && is_pair c d && is_base64 s
is_base64 _ = false

-- The six bits of a character.
unfoldable pub sextet : ℕ → ℕ
sextet c =
    if leb b'a' c
    then c - 71
    else if leb b'A' c
    then c - 65
    else if leb b'0' c
    then c + 4
    else if eqb c b'+'
    then 62
    else 63

unfoldable pub letter : ℕ → ℕ
letter v =
    if ltb v 26
    then v + 65
    else if ltb v 52
    then v + 71
    else if ltb v 62
    then v - 4
    else if eqb v 62
    then b'+'
    else b'/'

abbrev pub first_byte : ℕ → ℕ → ℕ
first_byte a b = sextet a * 4 + sextet b / 16

abbrev pub second_byte : ℕ → ℕ → ℕ
second_byte b c = sextet b % 16 * 16 + sextet c / 4

abbrev pub third_byte : ℕ → ℕ → ℕ
third_byte c d = sextet c % 4 * 64 + sextet d

-- `Buffer.from(text, "base64")` of a text that the pattern accepts.
unfoldable pub from_base64 : Text → Bytes
from_base64 (a ∷ b ∷ c ∷ d ∷ s) =
    if eqb c b'='
    then first_byte a b ∷ []
    else if eqb d b'='
    then first_byte a b ∷ second_byte b c ∷ []
    else first_byte a b ∷ second_byte b c ∷ third_byte c d ∷ from_base64 s
from_base64 _ = []

-- `buffer.toString("base64")`.
unfoldable pub to_base64 : Bytes → Text
to_base64 [] = []
to_base64 (x ∷ []) = letter (x / 4) ∷ letter (x % 4 * 16) ∷ b'=' ∷ b'=' ∷ []
to_base64 (x ∷ y ∷ []) =
    letter (x / 4) ∷ letter (x % 4 * 16 + y / 16) ∷ letter (y % 16 * 4) ∷ b'=' ∷ []
to_base64 (x ∷ y ∷ z ∷ s) =
    letter (x / 4)
    ∷ letter (x % 4 * 16 + y / 16)
    ∷ letter (y % 16 * 4 + z / 64)
    ∷ letter (z % 64)
    ∷ to_base64 s

-- `decodeBase64` of message/index.ts.
unfoldable pub decode_base64 : Text → Option Bytes
decode_base64 value = if is_base64 value then some (from_base64 value) else none
