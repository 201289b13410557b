-- ===== src/Conformance/Cases/Laws.antt =====
-- What the check of the cases accepts.
use ankusa.Prelude.{
  String, true, false, ◌≡◌, ◌↔◌, refl, sym, ◌∙◌, subst, ap, arith, Option, none, some, List, [],
  ◌∷◌, ◌++◌, Text, All, if◌then◌else◌, Result, ok, err, ◌>>=◌, ok-injective,
}
use ankusa.Json.{Json, obj, Props, get}
use ankusa.Conformance.Cases.{
  missing_field, duplicate_case, Problem, TypeError, Item, has, is_in, members_of, fields, missing,
  check_expect, check_feature, check_operation, check_identified, check_case, seen_after,
  check_cases,
}
use ankusa.Conformance.Cases.Expected.{IsOutcome, expect_sound, expect_complete}

module _ {A : Type 0} where
  pub append_empty : (xs ys : List A) → (xs ++ ys ≡ []) ↔ ((xs ≡ []) × (ys ≡ []))
  append_empty [] ys = (λ h. (refl, h), λ h. h.1)
  append_empty (x ∷ xs) ys = (λ h. absurd (ground arith), λ (h, k). absurd (ground arith))

collected :
    (xs : List Problem) (r : Result TypeError (List Problem))
    → (r >>= λ es. ok (xs ++ es)) ≡ ok []
    → (xs ≡ []) × (r ≡ ok [])
collected xs (ok es) h = let (e, f) = (append_empty xs es).0 (ok-injective _ _ h) in (e, ap ok f)
collected xs (err e) h = absurd cc

pub collected_all :
    (r s : Result TypeError (List Problem))
    → (r >>= λ es. s >>= λ rest. ok (es ++ rest)) ≡ ok []
    → (r ≡ ok []) × (s ≡ ok [])
collected_all (ok es) (ok rest) h =
    let (e, f) = (append_empty es rest).0 (ok-injective _ _ h) in (ap ok e, ap ok f)
collected_all (ok es) (err e) h = absurd cc
collected_all (err e) s h = absurd cc

there :
    (o : Option Json) → elim o [ none ↦ false | some v ↦ true ] ≡ true → (v : Json) × (o ≡ some v)
there none h = absurd (ground arith)
there (some v) h = (v, refl)

-- The ids of the cases are not among those seen, nor do two of them agree.
abbrev pub AreNew : List (Option Json) → List Item → Type 0
AreNew seen [] = Unit
AreNew seen (x ∷ xs) =
    (is_in (get "id" (members_of x.raw)) seen ≡ false)
    × AreNew (get "id" (members_of x.raw) ∷ seen) xs

module _ (ids ops : List (Option Json)) where
  -- A case has all of its fields, of a feature and an operation that are listed, and an expected result.
  pub record IsCase (c : Props) : Type 0 where
    pub id : Json
    pub input : Json
    pub feature : Json
    pub operation : Json
    pub expect : Props
    pub at_id : get "id" c ≡ some id
    pub at_input : get "input" c ≡ some input
    pub at_feature : get "feature" c ≡ some feature
    pub at_operation : get "operation" c ≡ some operation
    pub at_expect : get "expect" c ≡ some (obj expect)
    pub is_listed : is_in (some feature) ids ≡ true
    pub is_offered : is_in (some operation) ops ≡ true
    pub outcome : IsOutcome (get "ok" expect) (get "error" expect)

  feature_sound :
      (id : Option Json) (file : Text) (o : Option Json) (v : Json)
      → o ≡ some v
      → check_feature ids id file o ≡ []
      → is_in (some v) ids ≡ true
  feature_sound id file o v e h = ground (arith, subst (λ o. check_feature ids id file o ≡ []) e h)

  operation_sound :
      (id : Option Json) (file : Text) (o : Option Json) (v : Json)
      → o ≡ some v
      → check_operation ops id file o ≡ []
      → is_in (some v) ops ≡ true
  operation_sound id file o v e h =
      ground (arith, subst (λ o. check_operation ops id file o ≡ []) e h)

  missing_sound :
      (x : Item) (ks : List String)
      → missing x ks ≡ []
      → All (λ k. (v : Json) × (get k (members_of x.raw) ≡ some v)) ks
  unfolding missing
  missing_sound x [] h = tt
  missing_sound x (k ∷ ks) h =
      let (e, f) =
        (append_empty (if has k (members_of x.raw) then [] else missing_field x.index x.file k ∷ [])
            (missing x ks)).0
          h in
      (there (get k (members_of x.raw)) (ground (arith, e)), missing_sound x ks f)

  identified_sound :
      (seen : List (Option Json)) (file : Text) (c : Props) (id feature operation expect : Json)
      → get "feature" c ≡ some feature
      → get "operation" c ≡ some operation
      → get "expect" c ≡ some expect
      → check_identified ids ops seen file c (some id) ≡ ok []
      → (is_in (some id) seen ≡ false)
        × (is_in (some feature) ids ≡ true)
        × (is_in (some operation) ops ≡ true)
        × (check_expect (some id) file (some expect) ≡ ok [])
  unfolding check_identified
  identified_sound seen file c id feature operation expect f o e h =
      let (parts, expected) = collected _ (check_expect (some id) file (get "expect" c)) h in
      let (fresh, listed) =
        (append_empty (if is_in (some id) seen then duplicate_case (some id) file ∷ [] else []) _).0
          parts in
      let (a, b) = (append_empty (check_feature ids (some id) file (get "feature" c)) _).0 listed in
      (
        ground (arith, fresh),
        feature_sound (some id) file (get "feature" c) feature f a,
        operation_sound (some id) file (get "operation" c) operation o b,
        subst (λ v. check_expect (some id) file v ≡ ok []) e expected,
      )

  IsCase-sound :
      (seen : List (Option Json)) (x : Item)
      → check_case ids ops seen x ≡ ok []
      → IsCase (members_of x.raw) × (is_in (get "id" (members_of x.raw)) seen ≡ false)
  unfolding check_case
  IsCase-sound seen x h =
      let c : Props = members_of x.raw in
      let (m, r) =
        collected (missing x fields) (check_identified ids ops seen x.file c (get "id" c)) h in
      let ((id, at_id), m1) = missing_sound x fields m in
      let ((feature, at_feature), m2) = m1 in
      let ((operation, at_operation), m3) = m2 in
      let ((input, at_input), m4) = m3 in
      let ((expect, at_expect), _) = m4 in
      let (fresh, listed, offered, expected) =
        identified_sound seen x.file c id feature operation expect at_feature at_operation at_expect
          (subst (λ v. check_identified ids ops seen x.file c v ≡ ok []) at_id r) in
      let (ps, is_object, outcome) = expect_sound (some id) x.file expect expected in
      (
        record {
          id = id;
          input = input;
          feature = feature;
          operation = operation;
          expect = ps;
          at_id = at_id;
          at_input = at_input;
          at_feature = at_feature;
          at_operation = at_operation;
          at_expect = at_expect ∙ ap some is_object;
          is_listed = listed;
          is_offered = offered;
          outcome = outcome;
        },
        subst (λ v. is_in v seen ≡ false) (sym at_id) fresh,
      )

  missing_complete :
      (x : Item) (ks : List String)
      → All (λ k. (v : Json) × (get k (members_of x.raw) ≡ some v)) ks
      → missing x ks ≡ []
  unfolding missing
  missing_complete x [] h = refl
  missing_complete x (k ∷ ks) ((v, e), h) =
      subst
        (λ o.
          ((if elim o [ none ↦ false | some v ↦ true ]
              then []
              else missing_field x.index x.file k ∷ [])
            ++ missing x ks)
          ≡ [])
        (sym e) (missing_complete x ks h)

  IsCase-complete :
      (seen : List (Option Json)) (x : Item)
      → IsCase (members_of x.raw)
      → is_in (get "id" (members_of x.raw)) seen ≡ false
      → check_case ids ops seen x ≡ ok []
  unfolding check_case check_identified
  IsCase-complete seen x i fresh =
      let e = expect_complete (some i.id) x.file i.expect i.outcome in
      let f : is_in (some i.id) seen ≡ false = subst (λ v. is_in v seen ≡ false) i.at_id fresh in
      let m = missing_complete x fields (
        (i.id, i.at_id),
        (
          (i.feature, i.at_feature),
          (
            (i.operation, i.at_operation),
            ((i.input, i.at_input), ((obj i.expect, i.at_expect), tt)),
          ),
        ),
      ) in
      rw (i.at_id, i.at_feature, i.at_operation, i.at_expect, e, m, f, i.is_listed, i.is_offered)
        refl

  seen_after_lem :
      (seen : List (Option Json)) (x : Item)
      → IsCase (members_of x.raw)
      → seen_after x seen ≡ get "id" (members_of x.raw) ∷ seen
  seen_after_lem seen x i =
      subst (λ o. elim o [ none ↦ seen | some id ↦ some id ∷ seen ] ≡ o ∷ seen) (sym i.at_id) refl

  pub cases_sound :
      (seen : List (Option Json)) (xs : List Item)
      → check_cases ids ops seen xs ≡ ok []
      → All (λ x. IsCase (members_of x.raw)) xs × AreNew seen xs
  unfolding check_cases
  cases_sound seen [] h = (tt, tt)
  cases_sound seen (x ∷ xs) h =
      let (here, rest) =
        collected_all (check_case ids ops seen x) (check_cases ids ops (seen_after x seen) xs) h in
      let (i, fresh) = IsCase-sound seen x here in
      let (is, more) = cases_sound (seen_after x seen) xs rest in
      ((i, is), (fresh, subst (λ s. AreNew s xs) (seen_after_lem seen x i) more))

  pub cases_complete :
      (seen : List (Option Json)) (xs : List Item)
      → All (λ x. IsCase (members_of x.raw)) xs
      → AreNew seen xs
      → check_cases ids ops seen xs ≡ ok []
  unfolding check_cases
  cases_complete seen [] h k = refl
  cases_complete seen (x ∷ xs) (i, is) (fresh, more) =
      rw
        (
          IsCase-complete seen x i fresh,
          cases_complete (seen_after x seen) xs is
              (subst (λ s. AreNew s xs) (sym (seen_after_lem seen x i)) more),
        )
        refl
