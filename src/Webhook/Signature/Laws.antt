-- ===== src/Webhook/Signature/Laws.antt =====
-- Which deliveries `verifySignature` accepts.
use ankusa.Prelude.{
  ℕ, ◌≤◌, String, ◌≡◌, ◌≢◌, ◌↔◌, inl, inr, refl, subst, sym, ap, true, false, not, Option, none,
  some, List, [], ◌∷◌, ◌++◌, Text, Bytes, codes, any, Any, text_eq_sound, text_eq_refl, ltb, arith,
  ok, bind-eq-ok, require-eq-ok, ok-injective, Option-cases, Bool-cases,
}
use ankusa.Runtime.{Runtime}
use ankusa.Regex.{strip}
use ankusa.Regex.Laws.{strip_sound, strip_self}
use ankusa.Webhook.Headers.{HeaderSource, lower_headers, non_empty}
use ankusa.Webhook.Headers.Laws.{header, get-lower_headers}
use ankusa.Webhook.Signature.{
  VerifySignatureOptions, VerifiedSignature, secret_list, decode_secrets, present, required,
  is_digits, distance, or_default, split_spaces, candidates, same_bytes, body_bytes, signed_bytes,
  expected_bytes, is_matched, verify_signature, refused, invalid_timestamp,
  timestamp_out_of_tolerance, no_matching_signature,
}

same_bytes_iff : (a b : Bytes) → (same_bytes a b ≡ true) ↔ (a ≡ b)
same_bytes_iff a b = (
  λ e. ground (arith, text_eq_sound a b),
  λ e. subst (λ c. same_bytes a c ≡ true) e (ground (arith, text_eq_refl a)),
)

not_ltb : (a b : ℕ) → b ≤ a → ltb a b ≡ false
not_ltb a b h = ground arith

le_of_not-ltb : (a b : ℕ) → not (ltb a b) ≡ true → b ≤ a
le_of_not-ltb a b h = ground arith

present_iff :
    (name : String) (o : Option Text) (t : Text)
    → (present name (non_empty o) ≡ ok t) ↔ ((o ≡ some t) × (t ≢ []))
unfolding non_empty
present_iff name none t = (λ h. cc, λ h. cc)
present_iff name (some []) t = (λ h. cc, λ h. absurd (h.1 (ground arith)))
present_iff name (some (c ∷ s)) t = (λ h. (ground arith, ground arith), λ h. ground arith)

module _ (rt : Runtime) where
  -- An entry `v1,<signature>` whose signature is `e`.
  abbrev pub Signs : Bytes → Text → Type 0
  Signs e entry = (t : Text) × (entry ≡ codes "v1," ++ t) × (rt.encode_utf8 t ≡ e)

  -- Some entry of the header is the signature of `signed` under some key.
  abbrev pub IsMatched : List Bytes → Bytes → Text → Type 0
  IsMatched keys signed signature =
      Any (λ key. Any (Signs (expected_bytes rt key signed)) (split_spaces signature)) keys

  candidates_sound :
      (e : Bytes) (entries : List Text)
      → any (λ sig. same_bytes sig e) (candidates rt entries) ≡ true
      → Any (Signs e) entries
  unfolding candidates
  candidates_sound e [] h = cc
  candidates_sound e (entry ∷ entries) h = elim (Option-cases (strip (codes "v1,") entry)) [
    | inl other ↦ inr (candidates_sound e entries (ground arith))
    | inr (t, found) ↦ elim (Bool-cases (same_bytes (rt.encode_utf8 t) e)) [
      | inl same ↦ inl (t, sym (strip_sound (codes "v1,") entry found), (same_bytes_iff _ _).0 same)
      | inr differ ↦ inr (candidates_sound e entries (ground arith))
    ]
  ]

  candidates_complete :
      (e : Bytes) (entries : List Text)
      → Any (Signs e) entries
      → any (λ sig. same_bytes sig e) (candidates rt entries) ≡ true
  unfolding candidates
  candidates_complete e [] h = elim h [ ]
  candidates_complete e (entry ∷ entries) (inl (t, is_v1, same)) =
      let found : strip (codes "v1,") entry ≡ some t =
        subst (λ x. strip (codes "v1,") x ≡ some t) (sym is_v1) (strip_self (codes "v1,") t) in
      ground (arith, (same_bytes_iff (rt.encode_utf8 t) e).1 same)
  candidates_complete e (entry ∷ entries) (inr later) =
      let rest = candidates_complete e entries later in ground arith

  any-IsMatched :
      (signed : Bytes) (keys : List Bytes) (signature : Text)
      → (is_matched rt keys signed (candidates rt (split_spaces signature)) ≡ true)
        ↔ IsMatched keys signed signature
  unfolding is_matched
  any-IsMatched signed [] signature = (λ h. cc, λ h. elim h [ ])
  any-IsMatched signed (key ∷ keys) signature =
      let (to, from) = any-IsMatched signed keys signature in
      let e = expected_bytes rt key signed in
      (
        λ h.
            elim (Bool-cases
              (any (λ sig. same_bytes sig e) (candidates rt (split_spaces signature)))) [
                | inl here ↦ inl (candidates_sound e (split_spaces signature) here)
                | inr there ↦ inr (to (ground arith))
              ],
        λ h. elim h [
          | inl here ↦ ground (arith, candidates_complete e (split_spaces signature) here)
          | inr there ↦ ground (arith, from there)
        ],
      )

  required_iff :
      (source : HeaderSource) (name : String) (t : Text)
      → (required (lower_headers rt source) name ≡ ok t)
        ↔ ((header rt name source ≡ some t) × (t ≢ []))
  unfolding required
  required_iff source name t =
      subst (λ o. (required (lower_headers rt source) name ≡ ok t) ↔ ((o ≡ some t) × (t ≢ [])))
        (get-lower_headers rt name source) (present_iff name _ t)

  -- What an accepted delivery is: its headers are there, its time is a time within the tolerance, and
  -- an entry of its signature header matches under a configured secret.
  pub record IsSigned (clock : ℕ) (options : VerifySignatureOptions) (r : VerifiedSignature)
      : Type 0 where
    pub keys : List Bytes
    pub raw_timestamp : Text
    pub signature : Text
    pub decoded : decode_secrets rt (secret_list options.secrets) ≡ ok keys
    pub identified : (header rt "webhook-id" options.headers ≡ some r.id) × (r.id ≢ [])
    pub stamped :
        (header rt "webhook-timestamp" options.headers ≡ some raw_timestamp) × (raw_timestamp ≢ [])
    pub digits : is_digits raw_timestamp ≡ true
    pub read : r.timestamp ≡ rt.to_number raw_timestamp
    pub signed : (header rt "webhook-signature" options.headers ≡ some signature) × (signature ≢ [])
    pub in_time :
        distance (or_default options.now clock) r.timestamp
        ≤ or_default options.tolerance_seconds 300
    pub matched :
        IsMatched keys (signed_bytes rt r.id raw_timestamp (body_bytes rt options.body)) signature

  verify_sound :
      (clock : ℕ) (options : VerifySignatureOptions) (r : VerifiedSignature)
      → verify_signature rt clock options ≡ ok r
      → IsSigned clock options r
  unfolding verify_signature
  verify_sound clock options r h =
      let lowered = lower_headers rt options.headers in
      let (keys, decoded, h1) = bind-eq-ok (decode_secrets rt (secret_list options.secrets)) _ h in
      let (id, identified, h2) = bind-eq-ok (required lowered "webhook-id") _ h1 in
      let (raw, stamped, h3) = bind-eq-ok (required lowered "webhook-timestamp") _ h2 in
      let (signature, signed, h4) = bind-eq-ok (required lowered "webhook-signature") _ h3 in
      let (digits, h5) =
        require-eq-ok (is_digits raw) (refused invalid_timestamp (some "webhook-timestamp")) _ h4 in
      let (in_time, h6) =
        require-eq-ok
          (not (
            ltb (or_default options.tolerance_seconds 300)
              (distance (or_default options.now clock) (rt.to_number raw))))
          (refused timestamp_out_of_tolerance (some "webhook-timestamp")) _ h5 in
      let (matched, done) =
        require-eq-ok _ (refused no_matching_signature (some "webhook-signature")) _ h6 in
      subst (IsSigned clock options) (ok-injective _ _ done) (record {
        keys = keys;
        raw_timestamp = raw;
        signature = signature;
        decoded = decoded;
        identified = (required_iff options.headers "webhook-id" id).0 identified;
        stamped = (required_iff options.headers "webhook-timestamp" raw).0 stamped;
        digits = digits;
        read = refl;
        signed = (required_iff options.headers "webhook-signature" signature).0 signed;
        in_time = le_of_not-ltb _ _ in_time;
        matched = (any-IsMatched _ keys signature).0 matched;
      })

  verify_complete :
      (clock : ℕ) (options : VerifySignatureOptions) (r : VerifiedSignature)
      → IsSigned clock options r
      → verify_signature rt clock options ≡ ok r
  unfolding verify_signature
  verify_complete clock options r s =
      let late : ltb (or_default options.tolerance_seconds 300)
            (distance (or_default options.now clock) (rt.to_number s.raw_timestamp))
          ≡ false =
        subst
          (λ (n : ℕ).
            ltb (or_default options.tolerance_seconds 300)
              (distance (or_default options.now clock) n)
            ≡ false)
          s.read (not_ltb _ _ s.in_time) in
      rw
        (
          s.decoded,
          (required_iff options.headers "webhook-id" r.id).1 s.identified,
          (required_iff options.headers "webhook-timestamp" s.raw_timestamp).1 s.stamped,
          (required_iff options.headers "webhook-signature" s.signature).1 s.signed,
          s.digits,
          late,
          (any-IsMatched _ s.keys s.signature).1 s.matched,
        )
        (ap (λ n. ok (record { id = r.id; timestamp = n })) (sym s.read))

  -- `verifySignature` returns `r` exactly when the delivery is signed, and `r` is its id and time.
  pub verify_signature_iff :
      (clock : ℕ) (options : VerifySignatureOptions) (r : VerifiedSignature)
      → (verify_signature rt clock options ≡ ok r) ↔ IsSigned clock options r
  verify_signature_iff clock options r =
      (verify_sound clock options r, verify_complete clock options r)
