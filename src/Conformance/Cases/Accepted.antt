-- ===== src/Conformance/Cases/Accepted.antt =====
-- The suites that conformance/check.mjs accepts.
use ankusa.Prelude.{
  ℕ, suc, ◌≤◌, Bool, true, false, ◌||◌, ◌≡◌, ◌↔◌, refl, ◌∙◌, ap, arith, Option, some, List, [], ◌∷◌,
  ◌++◌, Text, All, any, map, text_eq, if◌then◌else◌, ok, bind-eq-ok, ok-injective,
}
use ankusa.Json.{Json}
use ankusa.Conformance.Cases.{
  Problem, Item, Suite, is_in, feature_ids, duplicate_feature, no_cases, not_registered, no_package,
  duplicates, members_of, check_cases, items, is_of, count_of, uncovered, package_names, absent,
  check_suite,
}
use ankusa.Conformance.Cases.Laws.{append_empty, IsCase, AreNew, cases_sound, cases_complete}

module _ {A : Type 0} where
  flag_sound :
      (b : Bool) (p : A) (rest : List A)
      → (if b then [] else p ∷ []) ++ rest ≡ []
      → (b ≡ true) × (rest ≡ [])
  flag_sound true p rest h = (refl, h)
  flag_sound false p rest h = absurd cc

  flag_complete :
      (b : Bool) (p : A) (rest : List A)
      → b ≡ true
      → rest ≡ []
      → (if b then [] else p ∷ []) ++ rest ≡ []
  flag_complete b p rest h k = rw (h, k) refl

  append_empties : (xs ys : List A) → xs ≡ [] → ys ≡ [] → xs ++ ys ≡ []
  append_empties xs ys h k = rw (h, k) refl

-- No two of the ids agree.
abbrev pub AreDistinct : List (Option Json) → List (Option Json) → Type 0
AreDistinct seen [] = Unit
AreDistinct seen (id ∷ ids) = (is_in id seen ≡ false) × AreDistinct (id ∷ seen) ids

duplicates_iff : (seen ids : List (Option Json)) → (duplicates seen ids ≡ []) ↔ AreDistinct seen ids
unfolding duplicates
duplicates_iff seen [] = (λ h. tt, λ h. refl)
duplicates_iff seen (id ∷ ids) = (
  λ h.
      let (e, f) =
        (append_empty (if is_in id seen then duplicate_feature id ∷ [] else [])
            (duplicates (id ∷ seen) ids)).0
          h in
      (ground (arith, e), (duplicates_iff (id ∷ seen) ids).0 f),
  λ (e, f). rw (e, (duplicates_iff (id ∷ seen) ids).1 f) refl,
)

absent_iff :
    (p : Text → Problem) (there names : List Text)
    → (absent p there names ≡ []) ↔ All (λ n. any (text_eq n) there ≡ true) names
unfolding absent
absent_iff p there [] = (λ h. tt, λ h. refl)
absent_iff p there (n ∷ ns) = (
  λ h.
      let (e, f) = flag_sound (any (text_eq n) there) (p n) (absent p there ns) h in
      (e, (absent_iff p there ns).0 f),
  λ (e, f).
      flag_complete (any (text_eq n) there) (p n) (absent p there ns) e
        ((absent_iff p there ns).1 f),
)

counted_step :
    (b rest : Bool) (n : ℕ)
    → (rest ≡ true) ↔ (1 ≤ n)
    → ((b || rest) ≡ true) ↔ (1 ≤ (if b then suc n else n))
counted_step true rest n h = (λ k. omega arith, λ k. refl)
counted_step false rest n h = h

module _ (ids : List (Option Json)) where
  counted_iff :
      (f : Option Json) (xs : List Item) → (any (is_of ids f) xs ≡ true) ↔ (1 ≤ count_of ids f xs)
  counted_iff f [] = (λ h. absurd (ground arith), λ h. absurd (ground arith))
  counted_iff f (x ∷ xs) =
      counted_step (is_of ids f x) (any (is_of ids f) xs) (count_of ids f xs) (counted_iff f xs)

  uncovered_iff :
      (xs : List Item) (fs : List (Option Json))
      → (uncovered ids xs fs ≡ []) ↔ All (λ f. 1 ≤ count_of ids f xs) fs
  unfolding uncovered
  uncovered_iff xs [] = (λ h. tt, λ h. refl)
  uncovered_iff xs (f ∷ fs) = (
    λ h.
        let (e, r) = flag_sound (any (is_of ids f) xs) (no_cases f) (uncovered ids xs fs) h in
        ((counted_iff f xs).0 e, (uncovered_iff xs fs).0 r),
    λ (e, r).
        flag_complete (any (is_of ids f) xs) (no_cases f) (uncovered ids xs fs)
          ((counted_iff f xs).1 e) ((uncovered_iff xs fs).1 r),
  )

-- The features have ids that differ, and each of them has a case; each case is whole, and no two have
-- the same id; and the packages of the SDKs are those that are registered.
pub record IsSuite (s : Suite) : Type 0 where
  pub ids : List (Option Json)
  pub read : feature_ids s.features ≡ ok ids
  pub distinct : AreDistinct [] ids
  pub whole : All (λ x. IsCase ids (map some s.operations) (members_of x.raw)) (items s.files)
  pub new : AreNew [] (items s.files)
  pub covered : All (λ f. 1 ≤ count_of ids f (items s.files)) ids
  pub registered : All (λ n. any (text_eq n) s.sdks ≡ true) (package_names s.entries)
  pub present : All (λ n. any (text_eq n) (package_names s.entries) ≡ true) s.sdks

suite_sound : (s : Suite) → check_suite s ≡ ok [] → IsSuite s
unfolding check_suite
suite_sound s h =
    let (ids, read, h1) = bind-eq-ok (feature_ids s.features) _ h in
    let (cases, checked, h2) =
      bind-eq-ok (check_cases ids (map some s.operations) [] (items s.files)) _ h1 in
    let (distinct, h3) = (append_empty (duplicates [] ids) _).0 (ok-injective _ _ h2) in
    let (none_wrong, h4) = (append_empty cases _).0 h3 in
    let (covered, h5) = (append_empty (uncovered ids (items s.files) ids) _).0 h4 in
    let (registered, present) =
      (append_empty (absent not_registered s.sdks (package_names s.entries)) _).0 h5 in
    let (whole, new) =
      cases_sound ids (map some s.operations) [] (items s.files) (checked ∙ ap ok none_wrong) in
    record {
      ids = ids;
      read = read;
      distinct = (duplicates_iff [] ids).0 distinct;
      whole = whole;
      new = new;
      covered = (uncovered_iff ids (items s.files) ids).0 covered;
      registered = (absent_iff not_registered s.sdks (package_names s.entries)).0 registered;
      present = (absent_iff no_package (package_names s.entries) s.sdks).0 present;
    }

suite_complete : (s : Suite) → IsSuite s → check_suite s ≡ ok []
unfolding check_suite
suite_complete s i =
    rw
      (
        i.read,
        cases_complete i.ids (map some s.operations) [] (items s.files) i.whole i.new,
        (duplicates_iff [] i.ids).1 i.distinct,
        (uncovered_iff i.ids (items s.files) i.ids).1 i.covered,
        (absent_iff not_registered s.sdks (package_names s.entries)).1 i.registered,
        (absent_iff no_package (package_names s.entries) s.sdks).1 i.present,
      )
      refl

-- The check throws nothing and finds nothing wrong if and only if the suite is well formed.
pub check_suite_iff : (s : Suite) → (check_suite s ≡ ok []) ↔ IsSuite s
check_suite_iff s = (suite_sound s, suite_complete s)
