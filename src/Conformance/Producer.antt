-- ===== src/Conformance/Producer.antt =====
-- The comparison of the producer vectors with those that are generated anew, in conformance/check.mjs.
pub mod Map
pub mod Laws
pub mod Tests
use ankusa.Prelude.{
  ℕ, Bool, true, false, not, ◌&&◌, String, Option, none, some, List, [], ◌∷◌, ◌++◌, Text, codes,
  eqb, text_eq, if◌then◌else◌, Result, ok, err, ◌>>=◌,
}
use ankusa.Json.{Json, null, obj, arr, str, Props, end, prop, Elems, nil, cons, get, same_value}
use ankusa.Worker.Raw.{is_truthy}
use ankusa.Conformance.Cases.{TypeError, type_error, has, feature_id}

-- How a `mix` command ends: it was not run, or it ended with a status, or by a signal.
pub data MixResult : Type 0 where
  not_run : MixResult
  ended : (status : Option ℕ) → MixResult

-- What the comparison runs on: the parser of JSON, `isDeepStrictEqual`, `mix`, and the texts of the two
-- files, of which one is written by the last of the commands. `parse_message` is `JSON.parse` on the
-- message of a vector, which the encoder writes as an object; `none` is the exception.
pub record World : Type 0 where
  pub parse : Text → Option Json
  pub parse_message : Json → Option Props
  pub deep_equal : Json → Json → Bool
  pub mix : List Text → MixResult
  pub generated_file : Text
  pub generated : Text
  pub checked_in : Text

pub data Difference : Type 0 where
  not_json : Difference
  keys : (added removed changed : List String) → Difference
  result_differs : Difference

pub data Problem : Type 0 where
  mix_failed : (args : List Text) → MixResult → Problem
  not_checked_in : (id : Option Json) → Problem
  not_generated : (id : Option Json) → Problem
  stale : (id : Option Json) → Difference → Problem
  not_identical : Problem

abbrev pub mix_commands : World → List (List Text)
mix_commands w =
    (codes "local.hex" ∷ codes "--force" ∷ codes "--if-missing" ∷ [])
    ∷ (codes "local.rebar" ∷ codes "--force" ∷ codes "--if-missing" ∷ [])
    ∷ (codes "deps.get" ∷ codes "--check-locked" ∷ [])
    ∷ (codes "ankusa.conformance.gen" ∷ codes "--out" ∷ w.generated_file ∷ [])
    ∷ []

-- `!(result.error || result.status !== 0)`
abbrev pub has_succeeded : MixResult → Bool
has_succeeded (ended (some status)) = eqb status 0
has_succeeded _ = false

-- The first command that fails ends the comparison.
unfoldable pub run_mix : World → List (List Text) → List Problem
run_mix w [] = []
run_mix w (args ∷ rest) =
    let others = run_mix w rest in
    if has_succeeded (w.mix args) then others else mix_failed args (w.mix args) ∷ []

abbrev pub elements : Elems → List Json
elements nil = []
elements (cons v vs) = v ∷ elements vs

abbrev pub array : Option Json → Result TypeError (List Json)
array (some (arr es)) = ok (elements es)
array _ = err type_error

-- `readJson(file).cases`; text that is no JSON, or has no array of cases, throws too.
abbrev pub cases_of : Option Json → Result TypeError (List Json)
cases_of (some (obj ps)) = array (get "cases" ps)
cases_of _ = err type_error

-- A `Map`, in the order of its keys.
abbrev pub Vectors : Type 0
Vectors = List (Option Json × Json)

abbrev pub map_get : Option Json → Vectors → Option Json
map_get id [] = none
map_get id (e ∷ es) = if same_value id e.0 then some e.1 else map_get id es

abbrev pub map_set : Option Json → Json → Vectors → Vectors
map_set id c [] = (id, c) ∷ []
map_set id c (e ∷ es) = if same_value id e.0 then (e.0, c) ∷ es else e ∷ map_set id c es

-- `new Map(cases.map((c) => [c.id, c]))`
unfoldable pub to_map : Vectors → List Json → Result TypeError Vectors
to_map m [] = ok m
to_map m (c ∷ cs) = do id ← feature_id c; to_map (map_set id c m) cs

unfoldable pub vectors : World → Text → Result TypeError Vectors
vectors w file = do cs ← cases_of (w.parse file); to_map [] cs

-- `vector.input.message`; `none` where it is `undefined` or an exception.
abbrev pub member : String → Option Json → Option Json
member k (some (obj ps)) = get k ps
member k _ = none

abbrev pub parsed_message : World → Json → Option Props
parsed_message w vector = elim (member "message" (member "input" (some vector))) [
  | none ↦ none
  | some text ↦ w.parse_message text
]

-- The keys of one object that another lacks.
abbrev pub lacking_keys : Props → Props → List String
lacking_keys there end = []
lacking_keys there (prop k v ps) =
    if has k there then lacking_keys there ps else k ∷ lacking_keys there ps

abbrev pub is_changed : World → Json → Option Json → Bool
is_changed w v none = false
is_changed w v (some old) = not (w.deep_equal v old)

abbrev pub changed_keys : World → Props → Props → List String
changed_keys w before end = []
changed_keys w before (prop k v ps) =
    if is_changed w v (get k before) then k ∷ changed_keys w before ps else changed_keys w before ps

abbrev pub difference : List String → List String → List String → Difference
difference [] [] [] = result_differs
difference added removed changed = keys added removed changed

abbrev pub compare_messages : World → Option Props → Option Props → Difference
compare_messages w (some now) (some before) =
    difference (lacking_keys before now) (lacking_keys now before) (changed_keys w before now)
compare_messages w _ _ = not_json

abbrev pub describe_difference : World → Json → Json → Difference
describe_difference w generated checked_in =
    compare_messages w (parsed_message w generated) (parsed_message w checked_in)

-- The ids of the one map that the other lacks.
unfoldable pub absent_vectors : (Option Json → Problem) → Vectors → Vectors → List Problem
absent_vectors p there [] = []
absent_vectors p there (e ∷ es) =
    (elim (map_get e.0 there) [ none ↦ p e.0 ∷ [] | some c ↦ [] ]) ++ absent_vectors p there es

abbrev pub compare_vector : World → Option Json → Json → Option Json → List Problem
compare_vector w id c none = []
compare_vector w id c (some old) =
    if is_truthy (some old) && not (w.deep_equal c old)
    then stale id (describe_difference w c old) ∷ []
    else []

unfoldable pub stale_vectors : World → Vectors → Vectors → List Problem
stale_vectors w there [] = []
stale_vectors w there (e ∷ es) =
    compare_vector w e.0 e.1 (map_get e.0 there) ++ stale_vectors w there es

abbrev pub or_identical : World → List Problem → List Problem
or_identical w (p ∷ ps) = p ∷ ps
or_identical w [] = if text_eq w.generated w.checked_in then [] else not_identical ∷ []

unfoldable pub compare_files : World → Result TypeError (List Problem)
compare_files w = do
  now ← vectors w w.generated
  before ← vectors w w.checked_in
  ok (
      or_identical w (
        absent_vectors not_checked_in before now
        ++ (absent_vectors not_generated now before ++ stale_vectors w before now)))

abbrev pub after_mix : World → List Problem → Result TypeError (List Problem)
after_mix w (p ∷ ps) = ok (p ∷ ps)
after_mix w [] = compare_files w

unfoldable pub producer_problems : World → Result TypeError (List Problem)
unfolding compare_files
producer_problems w = after_mix w (run_mix w (mix_commands w))
