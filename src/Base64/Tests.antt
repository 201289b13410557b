-- ===== src/Base64/Tests.antt =====
-- Base64 of concrete bytes.
use ankusa.Prelude.{◌≡◌, refl, none, codes}
use ankusa.Base64.{is_base64, is_base64_char, letter, to_base64, decode_base64}

encode_hello : to_base64 (codes "hello") ≡ codes "aGVsbG8="
unfolding to_base64 letter
encode_hello = refl

-- Padding in the middle, which Node's decoder accepts.
decode_bad : decode_base64 (codes "aG==aGVs") ≡ none
unfolding decode_base64 is_base64 is_base64_char
decode_bad = refl
