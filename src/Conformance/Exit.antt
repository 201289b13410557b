-- ===== src/Conformance/Exit.antt =====
-- The exit code of conformance/check.mjs, over its three parts.
pub mod Laws
mod Tests
use ankusa.Prelude.{ℕ, List, [], ◌∷◌, Result, ok, err}
use ankusa.Conformance.Cases.{TypeError, Suite, check_suite}
use ankusa.Conformance.Producer.{World, producer_problems}

-- What a part that throws or finds something wrong ends with; the next one is run otherwise.
abbrev pub exit_or {ℓ} : {P : Type ℓ} → Result TypeError (List P) → ℕ → ℕ
exit_or (err e) next = 1
exit_or (ok (p ∷ ps)) next = 1
exit_or (ok []) next = next

-- `verdict` is that of the runs of the SDKs.
abbrev pub exit_status : Suite → World → (verdict : ℕ) → ℕ
exit_status s w verdict = exit_or (check_suite s) (exit_or (producer_problems w) verdict)
