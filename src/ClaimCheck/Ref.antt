-- ===== src/ClaimCheck/Ref.antt =====
-- claim-check/ref.ts: claim-check refs.
pub mod RoundTrip
mod Tests
use ankusa.Prelude.{
  ℕ, Bool, ◌&&◌, ◌||◌, Option, none, some, List, [], ◌∷◌, ◌++◌, Text, codes, leb, eqb, Result, ok,
  err,
}
use ankusa.Regex.{Piece, lit, run, exec}
use ankusa.ClaimCheck.Errors.{ClaimCheckError, invalid_claim_ref}

pub record Proof : Type 0 where
  pub exp : Text
  pub sig : Text

pub record ParsedClaimRef : Type 0 where
  pub tenant_id : Text
  pub claim_id : Text
  pub path : Text
  pub proof : Option Proof

-- `[lo-hi]`
abbrev pub in_range : ℕ → ℕ → ℕ → Bool
in_range lo hi c = leb lo c && leb c hi

-- `[0-9]`
unfoldable pub is_digit : ℕ → Bool
is_digit c = in_range b'0' b'9' c

-- `[A-Za-z0-9_-]`
unfoldable pub is_name_char : ℕ → Bool
is_name_char c =
    in_range b'A' b'Z' c || in_range b'a' b'z' c || in_range b'0' b'9' c || eqb c b'_' || eqb c b'-'

-- `[0-7]`
unfoldable pub is_octal : ℕ → Bool
is_octal c = in_range b'0' b'7' c

-- `[0-9A-HJKMNP-TV-Z]`
unfoldable pub is_crockford : ℕ → Bool
is_crockford c =
    in_range b'0' b'9' c
    || in_range b'A' b'H' c
    || eqb c b'J'
    || eqb c b'K'
    || eqb c b'M'
    || eqb c b'N'
    || in_range b'P' b'T' c
    || in_range b'V' b'Z' c

-- `[1-9]`
unfoldable pub is_nonzero_digit : ℕ → Bool
is_nonzero_digit c = in_range b'1' b'9' c

-- `REF_PATTERN`; a group of two classes is two runs.
abbrev pub ref_pattern : List Piece
ref_pattern =
    lit (codes "urn:ankusa:claim:v1:")
    ∷ run is_name_char 1 64
    ∷ lit (codes ":")
    ∷ run is_octal 1 1
    ∷ run is_crockford 25 25
    ∷ []

-- `REF_V2_PATTERN`
abbrev pub ref_v2_pattern : List Piece
ref_v2_pattern =
    lit (codes "urn:ankusa:claim:v2:")
    ∷ run is_name_char 1 64
    ∷ lit (codes ":")
    ∷ run is_octal 1 1
    ∷ run is_crockford 25 25
    ∷ lit (codes ":")
    ∷ run is_nonzero_digit 1 1
    ∷ run is_digit 0 11
    ∷ lit (codes ":")
    ∷ run is_name_char 43 43
    ∷ []

-- `/v1/claims/${tenantId}/${claimId}`
abbrev pub claim_path : Text → Text → Text
claim_path tenant_id claim_id = codes "/v1/claims/" ++ (tenant_id ++ (codes "/" ++ claim_id))

-- What `parseClaimRef` builds from the groups of each pattern.
unfoldable pub unsigned_ref : List Text → Option ParsedClaimRef
unsigned_ref (tenant_id ∷ first ∷ rest ∷ []) = some (record {
  tenant_id = tenant_id;
  claim_id = first ++ rest;
  path = claim_path tenant_id (first ++ rest);
  proof = none;
})
unsigned_ref _ = none

unfoldable pub signed_ref : List Text → Option ParsedClaimRef
signed_ref (tenant_id ∷ first ∷ rest ∷ exp_first ∷ exp_rest ∷ sig ∷ []) =
    let exp = exp_first ++ exp_rest in
    some (record {
      tenant_id = tenant_id;
      claim_id = first ++ rest;
      path =
          claim_path tenant_id (first ++ rest)
          ++ (codes "?exp=" ++ (exp ++ (codes "&sig=" ++ sig)));
      proof = some (record { exp = exp; sig = sig });
    })
signed_ref _ = none

abbrev pub groups : (List Text → Option ParsedClaimRef) → Option (List Text) → Option ParsedClaimRef
groups make none = none
groups make (some caps) = make caps

unfoldable pub parse_claim_ref : Text → Result ClaimCheckError ParsedClaimRef
unfolding unsigned_ref signed_ref
parse_claim_ref ref = elim (groups signed_ref (exec ref_v2_pattern ref)) [
  | some signed ↦ ok signed
  | none ↦ elim (groups unsigned_ref (exec ref_pattern ref)) [
    | some parsed ↦ ok parsed
    | none ↦ err invalid_claim_ref
  ]
]
