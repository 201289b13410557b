-- ===== src/Conformance/Cases.antt =====
-- What conformance/check.mjs requires of the feature matrix, the cases and the registry of the SDKs.
pub mod Expected
pub mod Laws
pub mod Accepted
pub mod Counts
pub mod Tests
use ankusa.Prelude.{
  ℕ, suc, Bool, true, false, not, ◌&&◌, ◌||◌, String, Option, none, some, List, [], ◌∷◌, ◌++◌, Text,
  codes, Result, ok, err, ◌>>=◌, any, map, text_eq, if◌then◌else◌,
}
use ankusa.Json.{Json, null, bool, obj, arr, str, Props, end, get, same_value}

-- The members of `errors`, by what their texts tell.
pub data Problem : Type 0 where
  duplicate_feature : (id : Option Json) → Problem
  missing_field : (index : ℕ) (file : Text) (field : String) → Problem
  duplicate_case : (id : Option Json) (file : Text) → Problem
  unknown_feature : (id : Option Json) (file : Text) → Problem
  unknown_operation : (id : Option Json) (file : Text) → Problem
  not_one_outcome : (id : Option Json) (file : Text) → Problem
  class_not_text : (id : Option Json) (file : Text) → Problem
  retryable_permanent : (id : Option Json) (file : Text) → Problem
  no_cases : (id : Option Json) → Problem
  not_registered : (name : Text) → Problem
  no_package : (name : Text) → Problem

-- `in` of a value that is no object, or a member of `null`.
pub data TypeError : Type 0 where
  type_error : TypeError

-- A case as a file has it, with its place.
pub record Item : Type 0 where
  pub file : Text
  pub index : ℕ
  pub raw : Json

-- The parsed files: `features`, `operations` and `cases` where they are there, the entries of packages/
-- with whether each is a directory, and the names that sdks.json registers.
pub record Suite : Type 0 where
  pub features : List Json
  pub operations : List Json
  pub files : List (Text × List Json)
  pub entries : List (Text × Bool)
  pub sdks : List Text

-- `key in value`, of an object that is parsed.
abbrev pub has : String → Props → Bool
has k ps = elim (get k ps) [ none ↦ false | some v ↦ true ]

-- `set.has(value)`
abbrev pub is_in : Option Json → List (Option Json) → Bool
is_in v = any (same_value v)

-- `feature.id`, which throws on `null`.
abbrev pub feature_id : Json → Result TypeError (Option Json)
feature_id null = err type_error
feature_id (obj ps) = ok (get "id" ps)
feature_id _ = ok none

abbrev pub feature_ids : List Json → Result TypeError (List (Option Json))
feature_ids [] = ok []
feature_ids (f ∷ fs) = do id ← feature_id f; ids ← feature_ids fs; ok (id ∷ ids)

unfoldable pub duplicates : List (Option Json) → List (Option Json) → List Problem
duplicates seen [] = []
duplicates seen (id ∷ ids) =
    (if is_in id seen then duplicate_feature id ∷ [] else []) ++ duplicates (id ∷ seen) ids

-- `raw !== null && typeof raw === "object" ? raw : {}`; an array has none of the keys.
abbrev pub members_of : Json → Props
members_of (obj ps) = ps
members_of _ = end

abbrev pub fields : List String
fields = "id" ∷ "feature" ∷ "operation" ∷ "input" ∷ "expect" ∷ []

unfoldable pub missing : Item → List String → List Problem
missing x [] = []
missing x (k ∷ ks) =
    (if has k (members_of x.raw) then [] else missing_field x.index x.file k ∷ []) ++ missing x ks

-- `PERMANENT_ERRORS.has(class)`
abbrev pub is_permanent_class : Text → Bool
is_permanent_class t =
    text_eq t (codes "InvalidMessageError") || text_eq t (codes "InvalidSignatureError")

abbrev pub is_false : Option Json → Bool
is_false (some (bool false)) = true
is_false _ = false

-- `expect.error?.class` or `expect.error.retryable`
abbrev pub error_member : String → Option Json → Option Json
error_member k (some (obj ps)) = get k ps
error_member k _ = none

abbrev pub check_class : Option Json → Text → Option Json → Option Json → List Problem
check_class id file (some (str t)) retryable =
    if is_permanent_class t && not (is_false retryable)
    then retryable_permanent id file ∷ []
    else []
check_class id file _ retryable = class_not_text id file ∷ []

abbrev pub check_outcome : Option Json → Text → Bool → Bool → Option Json → List Problem
check_outcome id file true true error = not_one_outcome id file ∷ []
check_outcome id file false false error = not_one_outcome id file ∷ []
check_outcome id file true false error = []
check_outcome id file false true error =
    check_class id file (error_member "class" error) (error_member "retryable" error)

-- `in` throws on a value that is neither an object nor an array; `expect ?? {}` has no member.
unfoldable pub check_expect : Option Json → Text → Option Json → Result TypeError (List Problem)
check_expect id file none = ok []
check_expect id file (some null) = ok (check_outcome id file false false none)
check_expect id file (some (arr es)) = ok (check_outcome id file false false none)
check_expect id file (some (obj ps)) =
    ok (check_outcome id file (has "ok" ps) (has "error" ps) (get "error" ps))
check_expect id file (some _) = err type_error

abbrev pub check_feature : List (Option Json) → Option Json → Text → Option Json → List Problem
check_feature ids id file none = []
check_feature ids id file (some v) = if is_in (some v) ids then [] else unknown_feature id file ∷ []

abbrev pub check_operation : List (Option Json) → Option Json → Text → Option Json → List Problem
check_operation ops id file none = []
check_operation ops id file (some v) =
    if is_in (some v) ops then [] else unknown_operation id file ∷ []

-- What a case with an id is asked after its fields; `seen` has the ids of those before it.
unfoldable pub check_identified :
    List (Option Json)
    → List (Option Json)
    → List (Option Json)
    → Text
    → Props
    → Option Json
    → Result TypeError (List Problem)
check_identified ids ops seen file c none = ok []
check_identified ids ops seen file c (some id) = do
  expected ← check_expect (some id) file (get "expect" c)
  ok (
      ((if is_in (some id) seen then duplicate_case (some id) file ∷ [] else [])
        ++ (check_feature ids (some id) file (get "feature" c)
            ++ check_operation ops (some id) file (get "operation" c)))
      ++ expected)

unfoldable pub check_case :
    List (Option Json)
    → List (Option Json)
    → List (Option Json)
    → Item
    → Result TypeError (List Problem)
check_case ids ops seen x = do
  es ← check_identified ids ops seen x.file (members_of x.raw) (get "id" (members_of x.raw))
  ok (missing x fields ++ es)

-- `seenCaseIds` after a case.
abbrev pub seen_after : Item → List (Option Json) → List (Option Json)
seen_after x seen = elim (get "id" (members_of x.raw)) [ none ↦ seen | some id ↦ some id ∷ seen ]

unfoldable pub check_cases :
    List (Option Json)
    → List (Option Json)
    → List (Option Json)
    → List Item
    → Result TypeError (List Problem)
check_cases ids ops seen [] = ok []
check_cases ids ops seen (x ∷ xs) = do
  es ← check_case ids ops seen x
  rest ← check_cases ids ops (seen_after x seen) xs
  ok (es ++ rest)

-- The cases of a file, from the index on.
abbrev pub numbered : Text → ℕ → List Json → List Item
numbered file i [] = []
numbered file i (raw ∷ raws) =
    record { file = file; index = i; raw = raw } ∷ numbered file (suc i) raws

abbrev pub items : List (Text × List Json) → List Item
items [] = []
items (f ∷ fs) = numbered f.0 0 f.1 ++ items fs

-- Whether a case adds to the count of a feature.
abbrev pub is_of : List (Option Json) → Option Json → Item → Bool
is_of ids feature x =
    has "id" (members_of x.raw)
    && has "feature" (members_of x.raw)
    && is_in (get "feature" (members_of x.raw)) ids
    && same_value feature (get "feature" (members_of x.raw))

-- `caseCounts.get(feature.id) ?? 0`
abbrev pub count_of : List (Option Json) → Option Json → List Item → ℕ
count_of ids feature [] = 0
count_of ids feature (x ∷ xs) =
    if is_of ids feature x then suc (count_of ids feature xs) else count_of ids feature xs

unfoldable pub uncovered : List (Option Json) → List Item → List (Option Json) → List Problem
uncovered ids xs [] = []
uncovered ids xs (f ∷ fs) =
    (if any (is_of ids f) xs then [] else no_cases f ∷ []) ++ uncovered ids xs fs

-- `name.startsWith("sdk-")`
abbrev pub is_sdk_name : Text → Bool
is_sdk_name (a ∷ b ∷ c ∷ d ∷ rest) = text_eq (a ∷ b ∷ c ∷ d ∷ []) (codes "sdk-")
is_sdk_name _ = false

abbrev pub package_names : List (Text × Bool) → List Text
package_names [] = []
package_names (e ∷ es) = if e.1 && is_sdk_name e.0 then e.0 ∷ package_names es else package_names es

-- The names of one list that another lacks.
unfoldable pub absent : (Text → Problem) → List Text → List Text → List Problem
absent p there [] = []
absent p there (n ∷ ns) = (if any (text_eq n) there then [] else p n ∷ []) ++ absent p there ns

-- All of the errors that are collected, unless one is thrown.
unfoldable pub check_suite : Suite → Result TypeError (List Problem)
check_suite s = do
  ids ← feature_ids s.features
  cases ← check_cases ids (map some s.operations) [] (items s.files)
  ok (
      duplicates [] ids
      ++ (cases
          ++ (uncovered ids (items s.files) ids
              ++ (absent not_registered s.sdks (package_names s.entries)
                  ++ absent no_package (package_names s.entries) s.sdks))))
