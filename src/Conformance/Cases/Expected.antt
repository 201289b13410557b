-- ===== src/Conformance/Cases/Expected.antt =====
-- What conformance/check.mjs takes for an expected result.
use ankusa.Prelude.{
  true, false, ◌≡◌, inl, inr, refl, sym, subst, ap, arith, Option, none, some, [], Text, ok,
  ok-injective, Bool-cases,
}
use ankusa.Json.{Json, null, bool, obj, arr, str, number, Props, get}
use ankusa.Conformance.Cases.{
  is_permanent_class, is_false, check_class, check_outcome, check_expect,
}

-- The members `ok` and `error` of an expected result: it is either a value, or an error with its class
-- as a text, which is not to be retried if the class is permanent.
pub data IsOutcome : Option Json → Option Json → Type 0 where
  value : (v : Json) → IsOutcome (some v) none
  error :
      (d : Props) (t : Text)
      → get "class" d ≡ some (str t)
      → (is_permanent_class t ≡ true → get "retryable" d ≡ some (bool false))
      → IsOutcome none (some (obj d))

not_false : (v : Option Json) → is_false v ≡ true → v ≡ some (bool false)
not_false (some (bool false)) h = refl
not_false (some (bool true)) h = absurd (ground arith)
not_false (some null) h = absurd (ground arith)
not_false (some (number n)) h = absurd (ground arith)
not_false (some (str t)) h = absurd (ground arith)
not_false (some (obj ps)) h = absurd (ground arith)
not_false (some (arr es)) h = absurd (ground arith)
not_false none h = absurd (ground arith)

module _ (id : Option Json) (file : Text) where
  class_sound :
      (c r : Option Json)
      → check_class id file c r ≡ []
      → (t : Text) × (c ≡ some (str t)) × (is_permanent_class t ≡ true → r ≡ some (bool false))
  class_sound (some (str t)) r h = (t, refl, λ p. not_false r (ground (arith, h, p)))
  class_sound none r h = absurd (ground arith)
  class_sound (some null) r h = absurd (ground arith)
  class_sound (some (bool b)) r h = absurd (ground arith)
  class_sound (some (number n)) r h = absurd (ground arith)
  class_sound (some (obj ps)) r h = absurd (ground arith)
  class_sound (some (arr es)) r h = absurd (ground arith)

  class_complete :
      (c r : Option Json) (t : Text)
      → c ≡ some (str t)
      → (is_permanent_class t ≡ true → r ≡ some (bool false))
      → check_class id file c r ≡ []
  class_complete c r t e p =
      subst (λ c. check_class id file c r ≡ []) (sym e)
        (elim (Bool-cases (is_permanent_class t)) [
          | inl y ↦
              subst (λ r. check_class id file (some (str t)) r ≡ []) (sym (p y)) (ground (arith, y))
          | inr n ↦ ground (arith, n)
        ])

  IsOutcome-sound :
      (o e : Option Json)
      → (check_outcome id file
            (elim o [ none ↦ false | some v ↦ true ])
            (elim e [ none ↦ false | some v ↦ true ])
            e
          ≡ [])
      → IsOutcome o e
  IsOutcome-sound none none h = absurd cc
  IsOutcome-sound (some v) (some w) h = absurd cc
  IsOutcome-sound (some v) none h = value v
  IsOutcome-sound none (some (obj d)) h =
      let (t, c, p) = class_sound (get "class" d) (get "retryable" d) h in error d t c p
  IsOutcome-sound none (some _) h = absurd cc

  IsOutcome-complete :
      {o e : Option Json}
      → IsOutcome o e
      → (check_outcome id file
            (elim o [ none ↦ false | some v ↦ true ])
            (elim e [ none ↦ false | some v ↦ true ])
            e
          ≡ [])
  IsOutcome-complete (value v) = refl
  IsOutcome-complete (error d t c p) = class_complete (get "class" d) (get "retryable" d) t c p

  pub expect_sound :
      (v : Json)
      → check_expect id file (some v) ≡ ok []
      → (ps : Props) × (v ≡ obj ps) × IsOutcome (get "ok" ps) (get "error" ps)
  unfolding check_expect
  expect_sound (obj ps) h =
      (ps, refl, IsOutcome-sound (get "ok" ps) (get "error" ps) (ok-injective _ _ h))
  expect_sound null h = absurd cc
  expect_sound (bool b) h = absurd cc
  expect_sound (number n) h = absurd cc
  expect_sound (str t) h = absurd cc
  expect_sound (arr es) h = absurd cc

  pub expect_complete :
      (ps : Props)
      → IsOutcome (get "ok" ps) (get "error" ps)
      → check_expect id file (some (obj ps)) ≡ ok []
  unfolding check_expect
  expect_complete ps h = ap ok (IsOutcome-complete h)
