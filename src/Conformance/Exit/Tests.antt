-- ===== src/Conformance/Exit/Tests.antt =====
-- A suite, its vectors and one SDK that passes.
use ankusa.Prelude.{ℕ, ◌≡◌, ◌↔◌, refl, true, false, some, List, [], ◌∷◌, ◌++◌, Text, All, codes}
use ankusa.Json.{pos}
use ankusa.Conformance.Cases.Tests.{suite}
use ankusa.Conformance.Cases.Accepted.{IsSuite}
use ankusa.Conformance.Producer.{mix_commands, has_succeeded}
use ankusa.Conformance.Producer.Tests.{agree_refl, vector, world, vector-IsNamed, cases_of_file}
use ankusa.Conformance.Pool.{
  Ending, closed, run_sdk, concurrency, Pool, Step, shift, finish, Reach, here, later, verdict,
}
use ankusa.Conformance.Pool.Verdict.{run, IsClean}
use ankusa.Conformance.Exit.{exit_status}
use ankusa.Conformance.Exit.Laws.{exit_status_iff}

abbrev spawn : ℕ → Ending
spawn code = closed (some code) false

abbrev commands : Text → List ℕ
commands name = 0 ∷ []

abbrev names : List Text
names = codes "sdk-go" ∷ []

abbrev last : Pool
last = record {
  queue = [];
  running = [];
  results = (codes "sdk-go", run_sdk spawn (0 ∷ [])) ∷ [];
  idle = 1;
}

last-Reach : Reach (run spawn commands) names (concurrency (some (pos 1)) 8) last
unfolding concurrency
last-Reach =
    later (later here (shift (codes "sdk-go") [] 0 refl refl)) (finish (codes "sdk-go") [] [] refl)

nobody : (name : Text) (xs ys : List Text) → ¬ (List.[] ≡ xs ++ (name ∷ ys))
nobody name [] ys h = cc
nobody name (x ∷ xs) ys h = cc

last_ended : (q : Pool) → ¬ Step (run spawn commands) last q
last_ended q (shift name rest idle e f) = cc
last_ended q (finish name xs ys e) = nobody name xs ys e

exit_status_iff_example : (exit_status (suite false) world (verdict last.results) ≡ 0) ↔ (
    IsSuite (suite false)
    × All (λ args. has_succeeded (world.mix args) ≡ true) (mix_commands world)
    × (world.generated ≡ world.checked_in)
    × All (IsClean spawn commands) names)
exit_status_iff_example =
    exit_status_iff spawn commands names (suite false) world (vector ∷ []) (some (pos 1)) 8 last
      (λ m. refl) agree_refl cases_of_file (vector-IsNamed, tt) last-Reach last_ended
