-- ===== src/Conformance/Pool/Tests.antt =====
-- Two SDKs, of which the second fails, one at a time.
use ankusa.Prelude.{false, ℕ, ◌≤◌, ◌<◌, ◌⊎◌, ◌≡◌, refl, some, List, [], ◌∷◌, Text, codes, length}
use ankusa.Json.{pos}
use ankusa.Conformance.Pool.{
  Ending, closed, run_sdk, concurrency, Pool, Step, shift, finish, Reach, here, later, verdict,
}
use ankusa.Conformance.Pool.Laws.{work}
use ankusa.Conformance.Pool.Verdict.{run, IsFinished, pool_ends}

-- A command that is the code that it ends with.
abbrev spawn : ℕ → Ending
spawn code = closed (some code) false

abbrev commands : Text → List ℕ
commands name = 0 ∷ length name ∷ []

abbrev names : List Text
names = codes "" ∷ codes "go" ∷ []

abbrev last : Pool
last = record {
  queue = [];
  running = [];
  results = (codes "go", run_sdk spawn (0 ∷ 2 ∷ [])) ∷ (codes "", run_sdk spawn (0 ∷ 0 ∷ [])) ∷ [];
  idle = 1;
}

last-Reach : Reach (run spawn commands) names (concurrency (some (pos 1)) 8) last
unfolding concurrency
last-Reach =
    later
      (later
        (later (later here (shift (codes "") (codes "go" ∷ []) 0 refl refl))
          (finish (codes "") [] [] refl))
        (shift (codes "go") [] 0 refl refl))
      (finish (codes "go") [] [] refl)

last_fails : verdict last.results ≡ 1
unfolding verdict run_sdk
last_fails = refl

pool_ends_example :
    (length last.running ≤ concurrency (some (pos 1)) 8)
    × ((q : Pool) → Step (run spawn commands) last q → work q < work last)
    × (IsFinished spawn commands names last ⊎ ((q : Pool) × Step (run spawn commands) last q))
pool_ends_example = pool_ends spawn commands names (some (pos 1)) 8 last last-Reach
