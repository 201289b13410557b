-- ===== src/Conformance/Cases/Counts.antt =====
-- The counts that conformance/check.mjs prints of a suite that it accepts.
use ankusa.Prelude.{
  ℕ, ◌+◌, ◌≤◌, Bool, true, false, ◌&&◌, ◌≡◌, inl, inr, refl, sym, ap, ◌∙◌, subst, arith, Option,
  none, some, List, [], ◌∷◌, All, map, length, text_eq_sound, if◌then◌else◌, Bool-cases, ok,
}
use ankusa.Json.{
  Json, same_value, get, same_number, null, bool, number, str, Number, whole, other, pos, negsuc,
}
use ankusa.Conformance.Cases.{
  Item, Suite, is_in, feature_ids, members_of, items, is_of, count_of, check_suite,
}
use ankusa.Conformance.Cases.Laws.{IsCase}
use ankusa.Conformance.Cases.Accepted.{AreDistinct, IsSuite, check_suite_iff}

-- The lines: how many features and cases there are, and each feature with its cases.
pub record Summary : Type 0 where
  pub features : ℕ
  pub cases : ℕ
  pub by_feature : List (Option Json × ℕ)

abbrev pub count_each : List (Option Json) → List Item → List (Option Json) → List (Option Json × ℕ)
count_each ids xs [] = []
count_each ids xs (f ∷ fs) = (f, count_of ids f xs) ∷ count_each ids xs fs

abbrev pub summary : List (Option Json) → List Item → Summary
summary ids xs = record {
  features = length ids;
  cases = length xs;
  by_feature = count_each ids xs ids;
}

abbrev pub total : List (Option Json × ℕ) → ℕ
total [] = 0
total (c ∷ cs) = c.1 + total cs

same_number_sound : (m n : Number) → same_number m n ≡ true → m ≡ n
same_number_sound (whole (pos m)) (whole (pos n)) h = ap (λ k. whole (pos k)) (ground (arith, h))
same_number_sound (whole (negsuc m)) (whole (negsuc n)) h =
    ap (λ k. whole (negsuc k)) (ground (arith, h))
same_number_sound (other m) (other n) h = ap other (ground (arith, h))
same_number_sound _ _ h = absurd cc

-- What a `Set` takes for one value is one.
same_value_sound : (a b : Option Json) → same_value a b ≡ true → a ≡ b
unfolding same_value
same_value_sound none none h = refl
same_value_sound (some null) (some null) h = refl
same_value_sound (some (bool true)) (some (bool true)) h = refl
same_value_sound (some (bool false)) (some (bool false)) h = refl
same_value_sound (some (number m)) (some (number n)) h =
    ap (λ k. some (number k)) (same_number_sound m n h)
same_value_sound (some (str s)) (some (str t)) h = ap (λ k. some (str k)) (text_eq_sound s t h)
same_value_sound _ _ h = absurd cc

abbrev is_there : Option Json → Bool
is_there o = elim o [ none ↦ false | some v ↦ true ]

-- How many features a case counts for.
abbrev hits : List (Option Json) → Item → List (Option Json) → ℕ
hits ids x [] = 0
hits ids x (f ∷ fs) = (if is_of ids f x then 1 else 0) + hits ids x fs

module _ (ids : List (Option Json)) where
  total-count_each_more :
      (x : Item) (xs : List Item) (fs : List (Option Json))
      → total (count_each ids (x ∷ xs) fs) ≡ hits ids x fs + total (count_each ids xs fs)
  total-count_each_more x xs [] = omega arith
  total-count_each_more x xs (f ∷ fs) = elim (Bool-cases (is_of ids f x)) [
    | inl e ↦ ground (arith, e, total-count_each_more x xs fs)
    | inr e ↦ ground (arith, e, total-count_each_more x xs fs)
  ]

  total-count_each_nil : (fs : List (Option Json)) → total (count_each ids [] fs) ≡ 0
  total-count_each_nil [] = refl
  total-count_each_nil (f ∷ fs) = omega (arith, total-count_each_nil fs)

  module _ (x : Item) (v : Option Json)
      (of : (f : Option Json) → is_of ids f x ≡ same_value f v) where
    -- A feature that was met is not met again.
    hits_none :
        (seen fs : List (Option Json))
        → AreDistinct seen fs
        → is_in v seen ≡ true
        → hits ids x fs ≡ 0
    hits_none seen [] d met = refl
    hits_none seen (f ∷ fs) (fresh, d) met = elim (Bool-cases (same_value f v)) [
      | inl e ↦
          absurd (cc (subst (λ v. is_in v seen ≡ true) (sym (same_value_sound f v e)) met, fresh))
      | inr e ↦ ground (arith, of f, e, hits_none (f ∷ seen) fs d (ground (arith, met)))
    ]

    hits_once :
        (seen fs : List (Option Json)) → AreDistinct seen fs → is_in v fs ≡ true → hits ids x fs ≡ 1
    hits_once seen [] d met = absurd cc
    hits_once seen (f ∷ fs) (fresh, d) met = elim (Bool-cases (same_value f v)) [
      | inl e ↦
          let own : same_value v f ≡ true =
            subst (λ u. same_value v u ≡ true) (sym (same_value_sound f v e))
              (subst (λ u. same_value u v ≡ true) (same_value_sound f v e) e) in
          ground (arith, of f, e, hits_none (f ∷ seen) fs d (ground (arith, own)))
      | inr e ↦ elim (Bool-cases (same_value v f)) [
        | inl k ↦ absurd (
            cc (
              subst (λ u. same_value u v ≡ true) (same_value_sound v f k)
                  (subst (λ u. same_value v u ≡ true) (sym (same_value_sound v f k)) k),
              e,
            ))
        | inr k ↦ ground (arith, of f, e, hits_once (f ∷ seen) fs d (ground (arith, met, k)))
      ]
    ]

  IsCase-is_of :
      (ops : List (Option Json)) (x : Item) (f : Option Json)
      (i : IsCase ids ops (members_of x.raw))
      → is_of ids f x ≡ same_value f (some i.feature)
  IsCase-is_of ops x f i =
      ap (λ o. is_counted o (get "feature" (members_of x.raw))) i.at_id
      ∙ (ap (is_counted (some i.id)) i.at_feature ∙ rw i.is_listed refl)
    where
      is_counted : Option Json → Option Json → Bool
      is_counted id feature =
          is_there id && is_there feature && is_in feature ids && same_value f feature

  total-cases :
      (ops : List (Option Json)) (xs : List Item)
      → AreDistinct [] ids
      → All (λ x. IsCase ids ops (members_of x.raw)) xs
      → total (count_each ids xs ids) ≡ length xs
  total-cases ops [] d h = total-count_each_nil ids
  total-cases ops (x ∷ xs) d (i, h) = omega (
    arith,
    total-count_each_more x xs ids,
    hits_once x (some i.feature) (λ f. IsCase-is_of ops x f i) [] ids d i.is_listed,
    total-cases ops xs d h,
  )

-- Of a suite in which nothing is wrong, the printed numbers of the features' cases add up to the printed
-- number of all cases, and none of them is 0: each case counts for one feature.
total-summary :
    (s : Suite)
    → check_suite s ≡ ok []
    → (ids : List (Option Json)) × (feature_ids s.features ≡ ok ids)
      × (total (summary ids (items s.files)).by_feature ≡ (summary ids (items s.files)).cases)
      × All (λ f. 1 ≤ count_of ids f (items s.files)) ids
total-summary s h =
    let i : IsSuite s = (check_suite_iff s).0 h in
    (
      i.ids,
      i.read,
      total-cases i.ids (map some s.operations) (items s.files) i.distinct i.whole,
      i.covered,
    )
