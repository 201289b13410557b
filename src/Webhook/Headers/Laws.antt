-- ===== src/Webhook/Headers/Laws.antt =====
-- Which of the entries `parseHeaders` reads.
use ankusa.Prelude.{
  String, ◌≡◌, ◌≢◌, refl, true, Option, none, some, List, [], ◌∷◌, Text, ◌==◌, if◌then◌else◌, ok,
  err, ok-injective, Option-cases, arith, ap, ◌∙◌, ◌↔◌, ◌⊎◌, inl, inr, subst, sym,
}
use ankusa.Runtime.{Runtime}
use ankusa.Message.Fields.{Verification, is_sha256}
use ankusa.Webhook.Headers.{
  HeaderValue, undefined, single, several, HeaderSource, object, HookHeaders, missing_hook_id,
  Lowered, get, header_entries, first_value, lower_from, lower_headers, non_empty, parse_headers,
  identified, parse_body_sha256, flagged_status, parse_verification_headers,
}

module _ (rt : Runtime) where
  abbrev pub or_else : Option (Option Text) → Option Text → Option Text
  or_else (some value) o = value
  or_else none o = o

  -- The first string of the last entry of that name, whatever its case; entries that are `undefined` do not
  -- count.
  unfoldable pub last_value : String → List (String × HeaderValue) → Option (Option Text)
  last_value name [] = none
  last_value name ((k, undefined) ∷ es) = last_value name es
  last_value name ((k, value) ∷ es) = elim (last_value name es) [
    | some later ↦ some later
    | none ↦ if rt.to_lower_case k == name then some (first_value value) else none
  ]

  get-lower_from :
      (name : String) (lowered : Lowered) (es : List (String × HeaderValue))
      → get name (lower_from rt lowered es) ≡ or_else (last_value name es) (get name lowered)
  unfolding get lower_from last_value
  get-lower_from name lowered [] = refl
  get-lower_from name lowered ((k, undefined) ∷ es) = get-lower_from name lowered es
  get-lower_from name lowered ((k, single t) ∷ es) =
      ground (arith, get-lower_from name ((rt.to_lower_case k, some t) ∷ lowered) es)
  get-lower_from name lowered ((k, several []) ∷ es) =
      ground (arith, get-lower_from name ((rt.to_lower_case k, none) ∷ lowered) es)
  get-lower_from name lowered ((k, several (t ∷ ts)) ∷ es) =
      ground (arith, get-lower_from name ((rt.to_lower_case k, some t) ∷ lowered) es)

  abbrev pub flatten : Option (Option Text) → Option Text
  flatten none = none
  flatten (some value) = value

  -- The value of a header: `undefined` if no entry counts or the last is an empty array.
  abbrev pub header : String → HeaderSource → Option Text
  header name source = flatten (last_value name (header_entries source))

  or_else-none : (o : Option (Option Text)) → or_else o none ≡ flatten o
  or_else-none none = refl
  or_else-none (some v) = refl

  pub get-lower_headers :
      (name : String) (source : HeaderSource)
      → get name (lower_headers rt source) ≡ header name source
  unfolding lower_headers get
  get-lower_headers name source =
      get-lower_from name [] (header_entries source)
      ∙ or_else-none (last_value name (header_entries source))

  -- The names in lower case.
  abbrev pub lowered_names : List (String × HeaderValue) → List (String × HeaderValue)
  lowered_names [] = []
  lowered_names ((k, value) ∷ es) = (rt.to_lower_case k, value) ∷ lowered_names es

  -- The loop over entries whose names are in lower case already.
  collect : Lowered → List (String × HeaderValue) → Lowered
  collect lowered [] = lowered
  collect lowered ((name, undefined) ∷ es) = collect lowered es
  collect lowered ((name, value) ∷ es) = collect ((name, first_value value) ∷ lowered) es

  collect-lowered_names :
      (lowered : Lowered) (es : List (String × HeaderValue))
      → collect lowered (lowered_names es) ≡ lower_from rt lowered es
  unfolding collect lower_from
  collect-lowered_names lowered [] = refl
  collect-lowered_names lowered ((k, undefined) ∷ es) = collect-lowered_names lowered es
  collect-lowered_names lowered ((k, single t) ∷ es) =
      collect-lowered_names ((rt.to_lower_case k, first_value (single t)) ∷ lowered) es
  collect-lowered_names lowered ((k, several ts) ∷ es) =
      collect-lowered_names ((rt.to_lower_case k, first_value (several ts)) ∷ lowered) es

  missing_iff :
      (lowered : Lowered) (o : Option Text)
      → (identified rt lowered (non_empty o) ≡ err missing_hook_id) ↔ ((o ≡ none) ⊎ (o ≡ some []))
  unfolding non_empty
  missing_iff lowered none = (λ e. inl refl, λ c. refl)
  missing_iff lowered (some []) = (λ e. inr refl, λ c. refl)
  missing_iff lowered (some (c ∷ s)) = (λ e. cc, λ c. ground arith)

  -- Headers that differ in the case of their names only are parsed alike.
  parse_headers_ignores_case :
      (es fs : List (String × HeaderValue))
      → lowered_names es ≡ lowered_names fs
      → parse_headers rt (object es) ≡ parse_headers rt (object fs)
  unfolding parse_headers
  parse_headers_ignores_case es fs same =
      let lowered : lower_from rt [] es ≡ lower_from rt [] fs =
        sym (collect-lowered_names [] es) ∙ (ap (collect []) same ∙ collect-lowered_names [] fs) in
      ap (λ l. identified rt l (non_empty (get "x-ankusa-id" l))) lowered

  -- The delivery is refused exactly when its last id header is absent or empty.
  parse_headers-missing_iff :
      (source : HeaderSource)
      → (parse_headers rt source ≡ err missing_hook_id)
        ↔ ((header "x-ankusa-id" source ≡ none) ⊎ (header "x-ankusa-id" source ≡ some []))
  unfolding parse_headers
  parse_headers-missing_iff source =
      rw (sym (get-lower_headers "x-ankusa-id" source)) (missing_iff (lower_headers rt source) _)

  non_empty_sound : (o : Option Text) (t : Text) → non_empty o ≡ some t → (o ≡ some t) × (t ≢ [])
  unfolding non_empty
  non_empty_sound none t h = cc
  non_empty_sound (some []) t h = cc
  non_empty_sound (some (c ∷ s)) t h = (h, ground arith)

  parse_body_sha256_sound :
      (o : Option Text) (t : Text) → parse_body_sha256 o ≡ some t → is_sha256 t ≡ true
  unfolding parse_body_sha256
  parse_body_sha256_sound none t h = cc
  parse_body_sha256_sound (some s) t h = ground arith

  flagged_status_sound :
      (s f : Option Text) (v : Verification)
      → flagged_status (non_empty s) f ≡ some v
      → (s ≡ some v.status) × (v.status ≢ [])
  unfolding non_empty
  flagged_status_sound none f v h = cc
  flagged_status_sound (some []) f v h = cc
  flagged_status_sound (some (c ∷ s)) f v h = (ground arith, ground arith)

  non_empty-header :
      (name : String) (source : HeaderSource) (t : Text)
      → non_empty (get name (lower_headers rt source)) ≡ some t
      → (header name source ≡ some t) × (t ≢ [])
  non_empty-header name source t k =
      subst (λ o. (o ≡ some t) × (t ≢ [])) (get-lower_headers name source) (non_empty_sound _ t k)

  -- The shape of the headers of an accepted delivery, read off the last header of each name.
  pub record IsDelivery (source : HeaderSource) (h : HookHeaders) : Type 0 where
    pub identity : (header "x-ankusa-id" source ≡ some h.id) × (h.id ≢ [])
    pub tenant : h.tenant ≡ header "x-ankusa-tenant" source
    pub dedupe :
        (t : Text)
        → h.dedupe_key ≡ some t
        → (header "x-ankusa-dedupe-key" source ≡ some t) × (t ≢ [])
    pub replay :
        (t : Text) → h.replay_id ≡ some t → (header "x-ankusa-replay-id" source ≡ some t) × (t ≢ [])
    pub key :
        (t : Text)
        → h.idempotency_key ≡ some t
        → (header "x-ankusa-idempotency-key" source ≡ some t) × (t ≢ [])
    pub digest : (t : Text) → h.body_sha256 ≡ some t → is_sha256 t ≡ true
    pub status :
        (v : Verification)
        → h.verification ≡ some v
        → (header "x-ankusa-verification" source ≡ some v.status) × (v.status ≢ [])

  identified-IsDelivery :
      (source : HeaderSource) (id : Text) (h : HookHeaders)
      → non_empty (get "x-ankusa-id" (lower_headers rt source)) ≡ some id
      → identified rt (lower_headers rt source) (some id) ≡ ok h
      → IsDelivery source h
  unfolding parse_verification_headers
  identified-IsDelivery source id h e done =
      let m = lower_headers rt source in
      subst (IsDelivery source) (ok-injective _ _ done) (record {
        identity = non_empty-header "x-ankusa-id" source id e;
        tenant = get-lower_headers "x-ankusa-tenant" source;
        dedupe = non_empty-header "x-ankusa-dedupe-key" source;
        replay = non_empty-header "x-ankusa-replay-id" source;
        key = non_empty-header "x-ankusa-idempotency-key" source;
        digest = λ t k. parse_body_sha256_sound (get "x-ankusa-body-sha256" m) t k;
        status = λ v k.
            subst (λ o. (o ≡ some v.status) × (v.status ≢ []))
              (get-lower_headers "x-ankusa-verification" source)
              (flagged_status_sound _ (get "x-ankusa-verification-flagged" m) v k);
      })

  -- What `parseHeaders` returns has the id of the last id header, which is not empty, the tenant as it
  -- was sent, keys and a status that were sent and are not empty, and a digest of 64 lowercase hex
  -- characters if any.
  pub parse_headers-IsDelivery :
      (source : HeaderSource) (h : HookHeaders)
      → parse_headers rt source ≡ ok h
      → IsDelivery source h
  unfolding parse_headers
  parse_headers-IsDelivery source h e =
      elim (Option-cases (non_empty (get "x-ankusa-id" (lower_headers rt source)))) [
        | inl missing ↦ absurd (ground arith)
        | inr (id, found) ↦ identified-IsDelivery source id h found (rw found at e)
      ]
