-- ===== src/Conformance/Pool/Verdict.antt =====
-- What the exit code of conformance/check.mjs says of the SDKs.
use ankusa.Prelude.{
  if◌then◌else◌, text_eq_refl, All_map, ℕ, zero, suc, ◌+◌, ◌≤◌, ◌<◌, ◌≡◌, ◌↔◌, ◌⊎◌, inl, inr, refl,
  ap, sym, ◌∙◌, arith, Option, none, some, List, [], ◌∷◌, Text, All, length, times, times-All,
  All-times,
}
use ankusa.Json.{ℤ, pos, negsuc}
use ankusa.Conformance.Pool.{
  Ending, exit_code, run_sdk, concurrency, Pool, Step, shift, finish, Reach, verdict,
}
use ankusa.Conformance.Pool.Laws.{names_of, work, IsResult, Step-work, Inv, Reach-Inv}

concurrency_positive : (jobs : Option ℤ) (parallelism : ℕ) → 1 ≤ concurrency jobs parallelism
unfolding concurrency
concurrency_positive none parallelism = ground arith
concurrency_positive (some (pos zero)) parallelism = ground arith
concurrency_positive (some (pos (suc n))) parallelism = ground arith
concurrency_positive (some (negsuc n)) parallelism = omega arith

module _ {C : Type 0} (spawn : C → Ending) where
  run_sdk_iff : (cs : List C) → (run_sdk spawn cs ≡ 0) ↔ All (λ c. exit_code (spawn c) ≡ 0) cs
  unfolding run_sdk
  run_sdk_iff [] = (λ h. tt, λ h. refl)
  run_sdk_iff (c ∷ cs) = (
    λ h. (ground arith, (run_sdk_iff cs).0 (ground arith)),
    λ (p, q). ground (arith, p, (run_sdk_iff cs).1 q),
  )

times-length : (m : Text) (xs : List Text) → times m xs ≤ length xs
times-length m [] = omega arith
times-length m (x ∷ xs) = ground (arith, times-length m xs)

verdict_iff : (rs : List (Text × ℕ)) → (verdict rs ≡ 0) ↔ All (λ r. r.1 ≡ 0) rs
unfolding verdict
verdict_iff [] = (λ h. tt, λ h. refl)
verdict_iff ((name, code) ∷ rs) = (
  λ h. (ground arith, (verdict_iff rs).0 (ground arith)),
  λ (p, q). ground (arith, (verdict_iff rs).1 q, p),
)

module _ (run : Text → ℕ) where
  abbrev Passes : Text → Type 0
  Passes name = run name ≡ 0

  results_pass :
      (rs : List (Text × ℕ))
      → All (IsResult run) rs
      → All (λ r. r.1 ≡ 0) rs ↔ All Passes (names_of rs)
  results_pass [] h = (λ x. tt, λ x. tt)
  results_pass (r ∷ rs) (own, h) = (
    λ (p, ps). (sym own ∙ p, (results_pass rs h).0 ps),
    λ (p, ps). (own ∙ p, (results_pass rs h).1 ps),
  )

  -- An idle loop takes the next name, and a loop that runs an SDK may finish.
  can_step :
      (p : Pool) (queue running : List Text) (idle : ℕ)
      → p.queue ≡ queue
      → p.running ≡ running
      → p.idle ≡ idle
      → (1 ≤ length queue → 1 ≤ length running + idle)
      → ((queue ≡ []) × (running ≡ [])) ⊎ ((q : Pool) × Step run p q)
  can_step p queue (name ∷ rest) idle q r e h = inr (_, finish name [] rest r)
  can_step p [] [] idle q r e h = inl (refl, refl)
  can_step p (name ∷ rest) [] (suc idle) q r e h = inr (_, shift name rest idle q e)
  can_step p (name ∷ rest) [] zero q r e h = absurd (ground (arith, h))

  module _ (names : List Text) where
    same_times :
        (p : Pool) (limit : ℕ)
        → Inv run names limit p
        → p.queue ≡ []
        → p.running ≡ []
        → (m : Text) → times m (names_of p.results) ≡ times m names
    same_times p limit i q r m = omega (arith, i.conserved m, ap (times m) q, ap (times m) r)

    Passes-iff :
        (rs : List (Text × ℕ))
        → ((m : Text) → times m (names_of rs) ≡ times m names)
        → All (IsResult run) rs
        → (verdict rs ≡ 0) ↔ All Passes names
    Passes-iff rs same own = (
      λ h. times-All Passes names (λ m n.
          All-times Passes (names_of rs) ((results_pass rs own).0 ((verdict_iff rs).0 h)) m
            (omega (arith, n, same m))),
      λ h. (verdict_iff rs).1 (
          (results_pass rs own).1 (
            times-All Passes (names_of rs)
              (λ m n. All-times Passes names h m (omega (arith, n, same m))))),
    )

    abbrev IsComplete : Pool → Type 0
    IsComplete p =
        ((m : Text) → times m (names_of p.results) ≡ times m names)
        × ((verdict p.results ≡ 0) ↔ All Passes names)

    queue_named :
        (p : Pool) (limit : ℕ) (queue : List Text)
        → Inv run names limit p
        → p.queue ≡ queue
        → 1 ≤ length queue
        → 1 ≤ length names
    queue_named p limit [] i q h = absurd (ground arith)
    queue_named p limit (name ∷ rest) i q h =
        let listed : times name (name ∷ rest) ≡ 1 + times name rest =
          ap (λ b. (if b then 1 else 0) + times name rest) (text_eq_refl name) in
        omega (arith, i.conserved name, ap (times name) q, listed, times-length name names)

    ends :
        (p : Pool) (limit : ℕ)
        → 1 ≤ limit
        → Inv run names limit p
        → IsComplete p ⊎ ((q : Pool) × Step run p q)
    ends p limit positive i =
        elim (can_step p p.queue p.running p.idle refl refl refl
          (λ h. omega (arith, i.loops, positive, queue_named p limit p.queue i refl h))) [
            | inl (q, r) ↦
                let same = same_times p limit i q r in inl (same, Passes-iff p.results same i.own)
            | inr next ↦ inr next
          ]

module _ {C : Type 0} (spawn : C → Ending) (commands : Text → List C) where
  abbrev pub run : Text → ℕ
  run name = run_sdk spawn (commands name)

  -- Every command of the SDK ends with 0.
  abbrev pub IsClean : Text → Type 0
  IsClean name = All (λ c. exit_code (spawn c) ≡ 0) (commands name)

  module _ (names : List Text) where
    -- Each SDK has a result for each time that it is listed, and the verdict is 0 if and only if all SDKs
    -- are clean.
    abbrev pub IsFinished : Pool → Type 0
    IsFinished p =
        ((m : Text) → times m (names_of p.results) ≡ times m names)
        × ((verdict p.results ≡ 0) ↔ All IsClean names)

    complete-IsFinished : (p : Pool) → IsComplete run names p → IsFinished p
    complete-IsFinished p (same, (to, from)) = (
      same,
      (
        λ h.
            All_map (Passes run) IsClean (λ name. (run_sdk_iff spawn (commands name)).0) names
              (to h),
        λ h.
            from (
              All_map IsClean (Passes run) (λ name. (run_sdk_iff spawn (commands name)).1) names h),
      ),
    )

    -- In every reachable state of the pool: at most as many SDKs run as the jobs and the processors
    -- allow; every step leaves less to do; and a step is possible unless the pool is finished, when
    -- each SDK has a result for each time that it is listed, and the exit code is 0 if and only if
    -- every command of every SDK ends with 0.
    pub pool_ends :
        (jobs : Option ℤ) (parallelism : ℕ) (p : Pool)
        → Reach run names (concurrency jobs parallelism) p
        → (length p.running ≤ concurrency jobs parallelism)
          × ((q : Pool) → Step run p q → work q < work p)
          × (IsFinished p ⊎ ((q : Pool) × Step run p q))
    pool_ends jobs parallelism p r =
        let i = Reach-Inv run names (concurrency jobs parallelism) r in
        (
          omega (arith, i.loops),
          λ q s. Step-work run p q s,
          elim (ends run names p (concurrency jobs parallelism)
              (concurrency_positive jobs parallelism) i) [
                | inl c ↦ inl (complete-IsFinished p c)
                | inr next ↦ inr next
              ],
        )
