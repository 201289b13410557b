-- ===== src/Conformance/Producer/Tests.antt =====
-- A file of one vector, as it is generated and after a key was added to the message.
use ankusa.Prelude.{
  ◌≡◌, ◌↔◌, refl, Bool, true, some, [], ◌∷◌, All, codes, text_eq, text_eq_refl, ok,
}
use ankusa.Json.{
  Props, Json, null, bool, number, str, obj, arr, end, prop, nil, cons, get, same_value,
}
use ankusa.Conformance.Producer.{
  World, ended, not_identical, mix_commands, has_succeeded, cases_of, run_mix, to_map, vectors,
  absent_vectors, stale_vectors, compare_files, producer_problems,
}
use ankusa.Conformance.Producer.Map.{IsNamed}
use ankusa.Conformance.Producer.Laws.{producer_problems_iff}

-- Texts are compared, and nothing else.
abbrev pub agree : Json → Json → Bool
agree (str s) (str t) = text_eq s t
agree _ _ = true

pub agree_refl : (v : Json) → agree v v ≡ true
agree_refl (str s) = text_eq_refl s
agree_refl null = refl
agree_refl (bool b) = refl
agree_refl (number n) = refl
agree_refl (obj ps) = refl
agree_refl (arr es) = refl

abbrev pub vector_members : Props
vector_members =
    prop "id" (str (codes "p1")) (prop "input" (obj (prop "message" (str (codes "{}")) end)) end)

abbrev pub vector : Json
vector = obj vector_members

abbrev pub file : Json
file = obj (prop "cases" (arr (cons vector nil)) end)

abbrev pub world : World
world = record {
  parse = λ t. some file;
  parse_message = λ t. some end;
  deep_equal = agree;
  mix = λ args. ended (some 0);
  generated_file = codes "producer.json";
  generated = codes "f";
  checked_in = codes "f";
}

pub vector-IsNamed : IsNamed vector
unfolding get
vector-IsNamed = record {
  members = vector_members;
  id = codes "p1";
  is_object = refl;
  at_id = refl;
}

pub cases_of_file : cases_of (some file) ≡ ok (vector ∷ [])
unfolding get
cases_of_file = refl

-- The files differ in their bytes only.
problems_of_bytes :
    producer_problems (record world { checked_in = codes "g" }) ≡ ok (not_identical ∷ [])
unfolding producer_problems compare_files vectors to_map absent_vectors stale_vectors run_mix get
    same_value text_eq
problems_of_bytes = refl

producer_problems_iff_example : (producer_problems world ≡ ok []) ↔ (
    All (λ args. has_succeeded (world.mix args) ≡ true) (mix_commands world)
    × (world.generated ≡ world.checked_in))
producer_problems_iff_example =
    producer_problems_iff world agree_refl (vector ∷ []) cases_of_file (vector-IsNamed, tt)
