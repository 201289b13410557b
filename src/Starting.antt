-- ===== src/Starting.antt =====
-- How the programs of the examples start: the environment that they read, and what they ask of a broker,
-- one thing after the other.
use ankusa.Prelude.{
  Bool, true, false, Option, none, some, List, [], ◌∷◌, Text, String, codes, if◌then◌else◌,
}

-- `process.env`
abbrev pub Env : Type 0
Env = String → Option Text

-- `process.env[name] ?? preset`
abbrev pub setting : Env → String → String → Text
setting env name preset = elim (env name) [ none ↦ codes preset | some value ↦ value ]

-- What was asked, the last first, and whether all of it was granted; a refusal ends the program.
abbrev pub ask_all {ℓ} :
    {A : Type ℓ} → (grants : List A → A → Bool) → List A → List A → List A × Bool
ask_all grants [] done = (done, true)
ask_all grants (a ∷ as_left) done =
    let rest = ask_all grants as_left (a ∷ done) in
    if grants done a then rest else (a ∷ done, false)
