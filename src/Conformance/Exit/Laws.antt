-- ===== src/Conformance/Exit/Laws.antt =====
-- When conformance/check.mjs ends with 0.
use ankusa.Prelude.{
  ℕ, ◌≡◌, ◌↔◌, inl, inr, refl, arith, true, Option, List, [], ◌∷◌, Text, All, All-times, times-All,
  times, Result, ok, err,
}
use ankusa.Json.{ℤ, Json}
use ankusa.Conformance.Cases.{TypeError, Suite, check_suite}
use ankusa.Conformance.Cases.Accepted.{IsSuite, check_suite_iff}
use ankusa.Conformance.Producer.{World, mix_commands, has_succeeded, cases_of, producer_problems}
use ankusa.Conformance.Producer.Map.{IsNamed}
use ankusa.Conformance.Producer.Laws.{producer_problems_iff}
use ankusa.Conformance.Pool.{Ending, concurrency, Pool, Step, Reach, verdict}
use ankusa.Conformance.Pool.Verdict.{run, IsClean, IsFinished, pool_ends}
use ankusa.Conformance.Exit.{exit_or, exit_status}

exit_or_iff :
    {P : Type 0} (r : Result TypeError (List P)) (next : ℕ)
    → (exit_or r next ≡ 0) ↔ ((r ≡ ok []) × (next ≡ 0))
exit_or_iff (err e) next = (λ h. cc, λ (p, q). cc)
exit_or_iff (ok (p ∷ ps)) next = (λ h. cc, λ (p, q). cc)
exit_or_iff (ok []) next = (λ h. (refl, h), λ (p, q). q)

exit_parts_iff :
    (s : Suite) (w : World) (ran : ℕ)
    → (exit_status s w ran ≡ 0)
      ↔ ((check_suite s ≡ ok []) × (producer_problems w ≡ ok []) × (ran ≡ 0))
exit_parts_iff s w ran =
    let rest : ℕ = exit_or (producer_problems w) ran in
    (
      λ h.
          let (suite, later) = (exit_or_iff (check_suite s) rest).0 h in
          let (producer, passed) = (exit_or_iff (producer_problems w) ran).0 later in
          (suite, producer, passed),
      λ (suite, producer, passed).
          (exit_or_iff (check_suite s) rest).1
            (suite, (exit_or_iff (producer_problems w) ran).1 (producer, passed)),
    )

module _ {C : Type 0} (spawn : C → Ending) (commands : Text → List C) (names : List Text) where
  -- A pool that has come to its end has a result for each SDK.
  ended-IsFinished :
      (jobs : Option ℤ) (parallelism : ℕ) (p : Pool)
      → Reach (run spawn commands) names (concurrency jobs parallelism) p
      → ((q : Pool) → ¬ Step (run spawn commands) p q)
      → IsFinished spawn commands names p
  ended-IsFinished jobs parallelism p reached ended =
      elim ((pool_ends spawn commands names jobs parallelism p reached).2) [
        | inl finished ↦ finished
        | inr (q, step) ↦ absurd (ended q step)
      ]

  -- Let the names in the pool be those of the SDKs that are registered, in some order, and the pool
  -- have come to its end; let the generated file hold vectors with texts as their ids, and
  -- `isDeepStrictEqual` take every value for equal to itself. Then the script ends with 0 if and only
  -- if the suite is well formed, all `mix` commands succeed, the vectors that are checked in are those
  -- that are generated, and every command of every registered SDK ends with 0.
  pub exit_status_iff :
      (s : Suite) (w : World) (cs : List Json) (jobs : Option ℤ) (parallelism : ℕ) (p : Pool)
      → ((m : Text) → times m names ≡ times m s.sdks)
      → ((v : Json) → w.deep_equal v v ≡ true)
      → cases_of (w.parse w.generated) ≡ ok cs
      → All IsNamed cs
      → Reach (run spawn commands) names (concurrency jobs parallelism) p
      → ((q : Pool) → ¬ Step (run spawn commands) p q)
      → (exit_status s w (verdict p.results) ≡ 0) ↔ (
          IsSuite s
          × All (λ args. has_succeeded (w.mix args) ≡ true) (mix_commands w)
          × (w.generated ≡ w.checked_in)
          × All (IsClean spawn commands) s.sdks)
  exit_status_iff s w cs jobs parallelism p sorted self parsed named reached ended =
      let (whole, passed) = ended-IsFinished jobs parallelism p reached ended in
      let vectors = producer_problems_iff w self cs parsed named in
      let IsOk = IsClean spawn commands in
      (
        λ h.
            let (suite, producer, none_failed) = (exit_parts_iff s w (verdict p.results)).0 h in
            let (mixed, same) = vectors.0 producer in
            (
              (check_suite_iff s).0 suite,
              mixed,
              same,
              times-All IsOk s.sdks (λ m n.
                  All-times IsOk names (passed.0 none_failed) m (omega (arith, n, sorted m))),
            ),
        λ (suite, mixed, same, clean). (exit_parts_iff s w (verdict p.results)).1 (
          (check_suite_iff s).1 suite,
          vectors.1 (mixed, same),
          passed.1 (
              times-All IsOk names
                (λ m n. All-times IsOk s.sdks clean m (omega (arith, n, sorted m)))),
        ),
      )
