-- ===== src/ClaimCheck/Ref/RoundTrip.antt =====
-- `parse_claim_ref` against the grammar of refs in claim-check/ref.ts and
-- packages/ankusa/priv/openapi/claim_check.v1.yaml.
use ankusa.Prelude.{
  ◌≤◌, ◌≡◌, ◌∙◌, refl, sym, subst, inl, inr, Option-cases, true, Option, none, some, List, [], ◌∷◌,
  ◌++◌, Text, codes, all, length, ok, arith, append_assoc, append-nil,
}
use mathlib.Core.Option.{some-injective}
use ankusa.Regex.{exec, strip, Piece}
use ankusa.Regex.Laws.{Fits, spell, exec_sound, exec_complete}
use ankusa.ClaimCheck.Ref.{
  parse_claim_ref, is_digit, is_name_char, is_octal, is_crockford, is_nonzero_digit, ParsedClaimRef,
  Proof, claim_path, ref_pattern, ref_v2_pattern, unsigned_ref, signed_ref, groups,
}

-- A canonical uppercase ULID: a digit below 8, then 25 characters of Crockford's alphabet.
abbrev pub IsUlid : Text → Type 0
IsUlid u =
    (first : Text) × (rest : Text) × (u ≡ first ++ rest)
    × (all is_octal first ≡ true)
    × (length first ≡ 1)
    × (all is_crockford rest ≡ true)
    × (length rest ≡ 25)

-- 1 to 12 digits with no leading zero.
abbrev pub IsExpiry : Text → Type 0
IsExpiry e =
    (first : Text) × (rest : Text) × (e ≡ first ++ rest)
    × (all is_nonzero_digit first ≡ true)
    × (length first ≡ 1)
    × (all is_digit rest ≡ true)
    × (length rest ≤ 11)

abbrev pub IsTenantId : Text → Type 0
IsTenantId t = (all is_name_char t ≡ true) × (1 ≤ length t) × (length t ≤ 64)

abbrev pub IsProof : Option Proof → Type 0
IsProof none = Unit
IsProof (some p) = IsExpiry p.exp × (all is_name_char p.sig ≡ true) × (length p.sig ≡ 43)

abbrev pub query : Option Proof → Text
query none = []
query (some p) = codes "?exp=" ++ (p.exp ++ (codes "&sig=" ++ p.sig))

pub record IsClaimRef (r : ParsedClaimRef) : Type 0 where
  pub tenant : IsTenantId r.tenant_id
  pub claim : IsUlid r.claim_id
  pub proof : IsProof r.proof
  pub path : r.path ≡ claim_path r.tenant_id r.claim_id ++ query r.proof

-- The URN of a claim.
abbrev pub urn : Text → Text → Option Proof → Text
urn tenant claim none = codes "urn:ankusa:claim:v1:" ++ (tenant ++ (codes ":" ++ claim))
urn tenant claim (some p) =
    codes "urn:ankusa:claim:v2:"
    ++ (tenant ++ (codes ":" ++ (claim ++ (codes ":" ++ (p.exp ++ (codes ":" ++ p.sig))))))

-- What holds of the ref that the groups `caps` of a pattern give.
abbrev IsSpelled : List Piece → List Text → ParsedClaimRef → Type 0
IsSpelled ps caps r = IsClaimRef r × (urn r.tenant_id r.claim_id r.proof ≡ spell ps caps)

unsigned_sound :
    (caps : List Text) (r : ParsedClaimRef)
    → Fits ref_pattern caps
    → unsigned_ref caps ≡ some r
    → IsSpelled ref_pattern caps r
unfolding unsigned_ref
unsigned_sound (t ∷ u ∷ w ∷ []) r (ft, lt, ut, (fu, lu, uu, (fw, lw, uw, _))) h =
    subst (IsSpelled ref_pattern (t ∷ u ∷ w ∷ [])) (some-injective _ _ h) (
      record {
        tenant = (ft, lt, ut);
        claim = (u, w, refl, fu, omega arith, fw, omega arith);
        proof = tt;
        path = simp append-nil;
      },
      rw append-nil,
    )
unsigned_sound _ r f h = cc

signed_sound :
    (caps : List Text) (r : ParsedClaimRef)
    → Fits ref_v2_pattern caps
    → signed_ref caps ≡ some r
    → IsSpelled ref_v2_pattern caps r
unfolding signed_ref
signed_sound (t ∷ u ∷ w ∷ e ∷ x ∷ g ∷ []) r
      (ft, lt, ut, (fu, lu, uu, (fw, lw, uw, (fe, le, ue, (fx, lx, ux, (fg, lg, ug, _)))))) h =
    subst (IsSpelled ref_v2_pattern (t ∷ u ∷ w ∷ e ∷ x ∷ g ∷ [])) (some-injective _ _ h) (
      record {
        tenant = (ft, lt, ut);
        claim = (u, w, refl, fu, omega arith, fw, omega arith);
        proof = ((e, x, refl, fe, omega arith, fx, ux), fg, omega arith);
        path = simp append_assoc;
      },
      simp (append-nil, append_assoc),
    )
signed_sound _ r f h = cc

-- What `make` builds from a match of `ps` is well formed and spells the text.
groups_sound :
    (ps : List Piece) (make : List Text → Option ParsedClaimRef)
    → ((caps : List Text) (r : ParsedClaimRef)
        → Fits ps caps
        → make caps ≡ some r
        → IsSpelled ps caps r)
    → (ref : Text) (o : Option (List Text)) (r : ParsedClaimRef) → exec ps ref ≡ o
    → groups make o ≡ some r
    → IsClaimRef r × (urn r.tenant_id r.claim_id r.proof ≡ ref)
groups_sound ps make sound ref none r e h = cc
groups_sound ps make sound ref (some caps) r e h =
    let (fits, spelled) = exec_sound ps ref caps e in
    let (good, same) = sound caps r fits h in (good, same ∙ spelled)

-- A parsed ref is well formed, and its URN is the text that was parsed.
pub urn-parse_claim_ref :
    (ref : Text) (r : ParsedClaimRef)
    → parse_claim_ref ref ≡ ok r
    → IsClaimRef r × (urn r.tenant_id r.claim_id r.proof ≡ ref)
unfolding parse_claim_ref
urn-parse_claim_ref ref r h = elim (Option-cases (groups signed_ref (exec ref_v2_pattern ref))) [
  | inl not_v2 ↦ elim (Option-cases (groups unsigned_ref (exec ref_pattern ref))) [
    | inl not_v1 ↦ ground arith
    | inr (p, e) ↦ groups_sound ref_pattern unsigned_ref unsigned_sound ref _ r refl (ground arith)
  ]
  | inr (p, e) ↦ groups_sound ref_v2_pattern signed_ref signed_sound ref _ r refl (ground arith)
]

-- The URN of a version 1 ref does not match the pattern of version 2.
exec-urn_v1 : (tenant claim : Text) → exec ref_v2_pattern (urn tenant claim none) ≡ none
unfolding exec strip
exec-urn_v1 tenant claim = refl

exec-urn_unsigned :
    (t c u w : Text)
    → c ≡ u ++ w
    → Fits ref_pattern (t ∷ u ∷ w ∷ [])
    → exec ref_pattern (urn t c none) ≡ some (t ∷ u ∷ w ∷ [])
unfolding is_name_char
exec-urn_unsigned t c u w e fits =
    subst (λ s. exec ref_pattern s ≡ some (t ∷ u ∷ w ∷ [])) (rw (e, append-nil))
      (exec_complete ref_pattern (t ∷ u ∷ w ∷ []) (refl, (refl, (tt, tt))) fits)

exec-urn_signed :
    (t c u w e x : Text) (p : Proof)
    → c ≡ u ++ w
    → p.exp ≡ e ++ x
    → Fits ref_v2_pattern (t ∷ u ∷ w ∷ e ∷ x ∷ p.sig ∷ [])
    → exec ref_v2_pattern (urn t c (some p)) ≡ some (t ∷ u ∷ w ∷ e ∷ x ∷ p.sig ∷ [])
unfolding is_name_char is_digit is_crockford
exec-urn_signed t c u w e x p h k fits =
    subst (λ s. exec ref_v2_pattern s ≡ some (t ∷ u ∷ w ∷ e ∷ x ∷ p.sig ∷ []))
      (rw (h, k) (simp (append_assoc, append-nil)))
      (exec_complete ref_v2_pattern (t ∷ u ∷ w ∷ e ∷ x ∷ p.sig ∷ [])
        (refl, (refl, (refl, (refl, (refl, (tt, tt)))))) fits)

parse_v1 :
    (r : ParsedClaimRef)
    → IsClaimRef r
    → r.proof ≡ none
    → parse_claim_ref (urn r.tenant_id r.claim_id none) ≡ ok r
unfolding parse_claim_ref
parse_v1 r good e =
    let (ft, lt, ut) = good.tenant in
    let (u, w, split, fu, lu, fw, lw) = good.claim in
    let matched =
      exec-urn_unsigned r.tenant_id r.claim_id u w split
        (ft, lt, ut, (fu, omega arith, omega arith, (fw, omega arith, omega arith, tt))) in
    let path : r.path ≡ claim_path r.tenant_id r.claim_id =
      subst (λ q. r.path ≡ claim_path r.tenant_id r.claim_id ++ query q) e good.path
      ∙ append-nil _ in
    ground (arith, exec-urn_v1 r.tenant_id r.claim_id)

parse_of_signed :
    (ref : Text) (caps : List Text) (r : ParsedClaimRef)
    → exec ref_v2_pattern ref ≡ some caps
    → signed_ref caps ≡ some r
    → parse_claim_ref ref ≡ ok r
unfolding parse_claim_ref
parse_of_signed ref caps r e h = rw (e, parse_claim_ref) (rw h)

signed_parts :
    (r : ParsedClaimRef) (p : Proof) (u w e x : Text)
    → r.proof ≡ some p
    → r.claim_id ≡ u ++ w
    → p.exp ≡ e ++ x
    → r.path ≡ claim_path r.tenant_id r.claim_id ++ query (some p)
    → signed_ref (r.tenant_id ∷ u ∷ w ∷ e ∷ x ∷ p.sig ∷ []) ≡ some r
unfolding signed_ref
signed_parts r p u w e x proof claim exp path = cc

parse_v2 :
    (r : ParsedClaimRef) (p : Proof)
    → IsClaimRef r
    → r.proof ≡ some p
    → parse_claim_ref (urn r.tenant_id r.claim_id (some p)) ≡ ok r
unfolding parse_claim_ref
parse_v2 r p good e =
    let (ft, lt, ut) = good.tenant in
    let (u, w, split, fu, lu, fw, lw) = good.claim in
    let proof : IsProof (some p) = subst IsProof e good.proof in
    let ((a, x, exp_split, fa, la, fx, lx), fg, lg) = proof in
    let path : r.path ≡ claim_path r.tenant_id r.claim_id ++ query (some p) =
      subst (λ q. r.path ≡ claim_path r.tenant_id r.claim_id ++ query q) e good.path in
    parse_of_signed _ _ r
      (exec-urn_signed r.tenant_id r.claim_id u w a x p split exp_split (
        ft,
        lt,
        ut,
        (
          fu,
          omega arith,
          omega arith,
          (
            fw,
            omega arith,
            omega arith,
            (
              fa,
              omega arith,
              omega arith,
              (fx, omega arith, lx, (fg, omega arith, omega arith, tt)),
            ),
          ),
        ),
      ))
      (signed_parts r p u w a x e split exp_split path)

-- The URN of a well-formed ref parses to that ref.
pub parse_claim_ref-urn :
    (r : ParsedClaimRef)
    → IsClaimRef r
    → parse_claim_ref (urn r.tenant_id r.claim_id r.proof) ≡ ok r
parse_claim_ref-urn r good = elim (Option-cases r.proof) [
  | inl e ↦
      subst (λ q. parse_claim_ref (urn r.tenant_id r.claim_id q) ≡ ok r) (sym e) (parse_v1 r good e)
  | inr (p, e) ↦
      subst (λ q. parse_claim_ref (urn r.tenant_id r.claim_id q) ≡ ok r) (sym e)
        (parse_v2 r p good e)
]
