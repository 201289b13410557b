-- ===== src/Conformance/Cases/Tests.antt =====
-- A suite of one case that is accepted, and one whose case expects a permanent error to be retried.
use ankusa.Prelude.{◌≡◌, ◌↔◌, refl, Bool, true, false, some, [], ◌∷◌, codes, ok}
use ankusa.Json.{Json, bool, str, obj, end, prop, same_value, get}
use ankusa.Conformance.Cases.{
  Suite, retryable_permanent, check_suite, duplicates, missing, check_expect, check_identified,
  check_case, check_cases, uncovered, absent,
}
use ankusa.Conformance.Producer.{World}
use ankusa.Conformance.Exit.{exit_status}
use ankusa.Conformance.Cases.Accepted.{IsSuite, check_suite_iff}

abbrev pub expect_error : Bool → Json
expect_error retryable = obj (
    prop "error"
      (obj
        (prop "class" (str (codes "InvalidMessageError")) (prop "retryable" (bool retryable) end)))
      end)

abbrev pub raw_case : Bool → Json
raw_case retryable = obj (
    prop "id" (str (codes "c1")) (
      prop "feature" (str (codes "decode")) (
        prop "operation" (str (codes "decode_message"))
          (prop "input" (str (codes "")) (prop "expect" (expect_error retryable) end)))))

abbrev pub suite : Bool → Suite
suite retryable = record {
  features = obj (prop "id" (str (codes "decode")) end) ∷ [];
  operations = str (codes "decode_message") ∷ [];
  files = (codes "decode.json", raw_case retryable ∷ []) ∷ [];
  entries = (codes "sdk-go", true) ∷ (codes "ankusa", true) ∷ [];
  sdks = codes "sdk-go" ∷ [];
}

suite_accepted : check_suite (suite false) ≡ ok []
unfolding check_suite duplicates missing check_expect check_identified check_case check_cases
    uncovered absent get same_value
suite_accepted = refl

suite_refused :
    check_suite (suite true)
    ≡ ok (retryable_permanent (some (str (codes "c1"))) (codes "decode.json") ∷ [])
unfolding check_suite duplicates missing check_expect check_identified check_case check_cases
    uncovered absent get same_value
suite_refused = refl

check_suite_iff_example : (check_suite (suite false) ≡ ok []) ↔ IsSuite (suite false)
check_suite_iff_example = check_suite_iff (suite false)

-- Nothing else is run after a problem.
refused_exit : (w : World) → exit_status (suite true) w 0 ≡ 1
unfolding check_suite duplicates missing check_expect check_identified check_case check_cases
    uncovered absent get same_value
refused_exit w = refl
