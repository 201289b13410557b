-- ===== src/Base64/Laws.antt =====
-- Encoding to base64 and decoding, one after the other.
use ankusa.Prelude.{
  ℕ, ◌+◌, ◌*◌, ◌/◌, ◌%◌, ◌<◌, ◌≡◌, refl, true, false, some, [], ◌∷◌, Text, Bytes, All, arith, eqb,
  subst, Bool-cases, inl, inr,
}
use mathlib.Core.Option.{some-injective}
use ankusa.Base64.{is_base64_char, is_base64, sextet, letter, from_base64, to_base64, decode_base64}

abbrev pub IsBytes : Bytes → Type 0
IsBytes = All (λ x. x < 256)

sextet-letter : (v : ℕ) → v < 64 → sextet (letter v) ≡ v
unfolding sextet letter
sextet-letter v h = ground arith

is_base64_char-letter : (v : ℕ) → v < 64 → is_base64_char (letter v) ≡ true
unfolding is_base64_char letter
is_base64_char-letter v h = ground arith

sextet-lt : (c : ℕ) → is_base64_char c ≡ true → sextet c < 64
unfolding sextet is_base64_char
sextet-lt c h = ground arith

is_base64_char-ne_pad : (c : ℕ) → is_base64_char c ≡ true → eqb c b'=' ≡ false
unfolding is_base64_char
is_base64_char-ne_pad c h = ground arith

letter-ne_pad : (v : ℕ) → v < 64 → eqb (letter v) b'=' ≡ false
letter-ne_pad v h = is_base64_char-ne_pad (letter v) (is_base64_char-letter v h)

-- Every byte string survives encoding and decoding.
pub from_base64-to_base64 : (s : Bytes) → IsBytes s → from_base64 (to_base64 s) ≡ s
unfolding from_base64 to_base64
from_base64-to_base64 [] h = refl
from_base64-to_base64 (x ∷ []) (hx, _) =
    ground (arith, sextet-letter (x / 4), sextet-letter (x % 4 * 16))
from_base64-to_base64 (x ∷ y ∷ []) (hx, (hy, _)) = ground (
  arith,
  sextet-letter (x / 4),
  sextet-letter (x % 4 * 16 + y / 16),
  sextet-letter (y % 16 * 4),
  letter-ne_pad (y % 16 * 4),
)
from_base64-to_base64 (x ∷ y ∷ z ∷ s) (hx, (hy, (hz, hs))) = ground (
  arith,
  sextet-letter (x / 4),
  sextet-letter (x % 4 * 16 + y / 16),
  sextet-letter (y % 16 * 4 + z / 64),
  sextet-letter (z % 64),
  letter-ne_pad (y % 16 * 4 + z / 64),
  letter-ne_pad (z % 64),
  from_base64-to_base64 s hs,
)

is_base64-group :
    (a b c d : ℕ) (s : Text)
    → is_base64_char a ≡ true
    → is_base64_char b ≡ true
    → is_base64_char c ≡ true
    → is_base64_char d ≡ true
    → is_base64 s ≡ true
    → is_base64 (a ∷ b ∷ c ∷ d ∷ s) ≡ true
unfolding is_base64
is_base64-group a b c d [] ha hb hc hd hs = rw (ha, hb, hc, hd)
is_base64-group a b c d (x ∷ s) ha hb hc hd hs = rw (ha, hb, hc, hd) hs

pub is_base64-to_base64 : (s : Bytes) → IsBytes s → is_base64 (to_base64 s) ≡ true
unfolding to_base64
is_base64-to_base64 [] h = unfold is_base64 in refl
is_base64-to_base64 (x ∷ []) (hx, _) =
    unfold is_base64 in
    ground (arith, is_base64_char-letter (x / 4), is_base64_char-letter (x % 4 * 16))
is_base64-to_base64 (x ∷ y ∷ []) (hx, (hy, _)) =
    unfold is_base64 in
    ground (
      arith,
      is_base64_char-letter (x / 4),
      is_base64_char-letter (x % 4 * 16 + y / 16),
      is_base64_char-letter (y % 16 * 4),
    )
is_base64-to_base64 (x ∷ y ∷ z ∷ s) (hx, (hy, (hz, hs))) =
    is_base64-group _ _ _ _ (to_base64 s) (is_base64_char-letter _ (omega arith))
      (is_base64_char-letter _ (omega arith)) (is_base64_char-letter _ (omega arith))
      (is_base64_char-letter _ (omega arith)) (is_base64-to_base64 s hs)

-- Decoding an encoded body gives the body back, for every body.
pub decode_base64-to_base64 : (s : Bytes) → IsBytes s → decode_base64 (to_base64 s) ≡ some s
unfolding decode_base64
decode_base64-to_base64 s h = rw (is_base64-to_base64 s h, from_base64-to_base64 s h)

-- Whatever is decoded is bytes.
from_base64-IsBytes : (t : Text) → is_base64 t ≡ true → IsBytes (from_base64 t)
unfolding is_base64 from_base64
from_base64-IsBytes [] h = tt
from_base64-IsBytes (a ∷ b ∷ c ∷ d ∷ []) h =
    ground (arith, sextet-lt a, sextet-lt b, sextet-lt c, sextet-lt d)
from_base64-IsBytes (a ∷ b ∷ c ∷ d ∷ e ∷ s) h =
    ground (arith, sextet-lt a, sextet-lt b, sextet-lt c, sextet-lt d, from_base64-IsBytes (e ∷ s))
from_base64-IsBytes (a ∷ []) h = cc
from_base64-IsBytes (a ∷ b ∷ []) h = cc
from_base64-IsBytes (a ∷ b ∷ c ∷ []) h = cc

pub decode_base64-IsBytes : (t : Text) (s : Bytes) → decode_base64 t ≡ some s → IsBytes s
unfolding decode_base64
decode_base64-IsBytes t s h = elim (Bool-cases (is_base64 t)) [
  | inl e ↦ subst IsBytes (some-injective _ _ (rw e at h)) (from_base64-IsBytes t e)
  | inr e ↦ ground arith
]
