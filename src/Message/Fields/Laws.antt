-- ===== src/Message/Fields/Laws.antt =====
-- What the checks on single fields establish.
use ankusa.Prelude.{ℕ, ◌≤◌, ◌≢◌, ◌≡◌, true, Option, none, some, Text, [], ◌∷◌, ok, arith}
use ankusa.Json.{Json, null, bool, number, str, obj, pos, negsuc, whole, other, get}
use ankusa.Message.Fields.{
  Verification, is_sha256, decode_version, decode_id, decode_sha256, decode_verification,
  verification_of,
}

pub decode_version_bounds : (j : Option Json) (v : ℕ) → decode_version j ≡ ok v → (1 ≤ v) × (v ≤ 2)
unfolding decode_version
decode_version_bounds (some (number (whole (pos n)))) v h = ground arith
decode_version_bounds (some (number (whole (negsuc n)))) v h = cc
decode_version_bounds (some (number (other b))) v h = cc
decode_version_bounds (some _) v h = cc
decode_version_bounds none v h = cc

pub decode_id-ne_nil : (j : Option Json) (id : Text) → decode_id j ≡ ok id → id ≢ []
unfolding decode_id
decode_id-ne_nil (some (str (c ∷ s))) id h = ground arith
decode_id-ne_nil (some (str [])) id h = cc
decode_id-ne_nil (some _) id h = cc
decode_id-ne_nil none id h = cc

pub decode_sha256_sound :
    (j : Option Json) (t : Text) → decode_sha256 j ≡ ok (some t) → is_sha256 t ≡ true
unfolding decode_sha256
decode_sha256_sound none t h = cc
decode_sha256_sound (some (str s)) t h = ground arith
decode_sha256_sound (some _) t h = cc

verification_of_sound :
    (s f : Option Json) (v : Verification) → verification_of s f ≡ ok (some v) → v.status ≢ []
verification_of_sound (some (str (c ∷ s))) (some (bool f)) v h = ground arith
verification_of_sound _ _ v h = cc

pub decode_verification_sound :
    (j : Option Json) (v : Verification) → decode_verification j ≡ ok (some v) → v.status ≢ []
unfolding decode_verification
decode_verification_sound none v h = cc
decode_verification_sound (some null) v h = cc
decode_verification_sound (some (obj ps)) v h =
    verification_of_sound (get "status" ps) (get "flagged" ps) v h
decode_verification_sound (some _) v h = cc
