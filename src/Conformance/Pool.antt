-- ===== src/Conformance/Pool.antt =====
-- The pool of conformance/check.mjs that runs the SDKs, a bounded number of them at a time.
pub mod Laws
pub mod Verdict
mod Tests
use ankusa.Prelude.{
  ℕ, zero, suc, ◌+◌, ◌≤◌, ◌<◌, Bool, true, false, not, ◌≡◌, Option, none, some, List, [], ◌∷◌, ◌++◌,
  Text, any, eqb, length, min, if◌then◌else◌,
}
use ankusa.Json.{ℤ, pos, negsuc}

-- How a child process ends: it was not started, or it closed with a status or by a signal.
pub data Ending : Type 0 where
  errored : Ending
  closed : (status : Option ℕ) → (is_signalled : Bool) → Ending

-- `status ?? (signal ? 1 : 0)`
abbrev pub exit_code : Ending → ℕ
exit_code errored = 1
exit_code (closed (some status) is_signalled) = status
exit_code (closed none true) = 1
exit_code (closed none false) = 0

-- `runSdk`: the setup commands and the run, until one fails.
unfoldable pub run_sdk {ℓ} : {C : Type ℓ} → (C → Ending) → List C → ℕ
run_sdk spawn [] = 0
run_sdk spawn (c ∷ cs) =
    let rest = run_sdk spawn cs in if eqb (exit_code (spawn c)) 0 then rest else exit_code (spawn c)

abbrev pub at_least_one : ℕ → ℕ
at_least_one zero = 1
at_least_one (suc n) = suc n

-- `Math.max(1, Math.min(Number(jobs) || 4, parallelism))`, of the number that the variable holds, which is
-- an integer; `none` is `NaN`.
unfoldable pub concurrency : Option ℤ → ℕ → ℕ
concurrency none parallelism = at_least_one (min 4 parallelism)
concurrency (some (pos zero)) parallelism = at_least_one (min 4 parallelism)
concurrency (some (pos (suc n))) parallelism = at_least_one (min (suc n) parallelism)
concurrency (some (negsuc n)) parallelism = 1

-- The queue, the SDKs that run, the results so far, and how many of the loops run none.
pub record Pool : Type 0 where
  pub queue : List Text
  pub running : List Text
  pub results : List (Text × ℕ)
  pub idle : ℕ

abbrev pub start : List Text → ℕ → Pool
start names limit = record {
  queue = names;
  running = [];
  results = [];
  idle = min limit (length names);
}

module _ (run : Text → ℕ) where
  -- A loop takes the first name of the queue, or ends the run of its SDK.
  pub data Step (p : Pool) : Pool → Type 0 where
    shift :
        (name : Text) (rest : List Text) (idle : ℕ)
        → p.queue ≡ name ∷ rest
        → p.idle ≡ suc idle
        → Step p (record p { queue = rest; running = name ∷ p.running; idle = idle })
    finish :
        (name : Text) (xs ys : List Text)
        → p.running ≡ xs ++ (name ∷ ys)
        → Step p (record p {
          running = xs ++ ys;
          results = (name, run name) ∷ p.results;
          idle = suc p.idle;
        })

  pub data Reach (names : List Text) (limit : ℕ) : Pool → Type 0 where
    here : Reach names limit (start names limit)
    later : {p q : Pool} → Reach names limit p → Step p q → Reach names limit q

-- Whether a result is not 0.
abbrev pub is_failed : Text × ℕ → Bool
is_failed r = not (eqb r.1 0)

-- `process.exit(failed ? 1 : 0)`
unfoldable pub verdict : List (Text × ℕ) → ℕ
verdict results = if any is_failed results then 1 else 0
