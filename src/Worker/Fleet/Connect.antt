-- ===== src/Worker/Fleet/Connect.antt =====
-- `connect` of examples/fleet-e2e/consumer/src/worker.ts: RabbitMQ is tried again until it accepts.
use ankusa.Prelude.{
  ℕ, zero, suc, ◌+◌, ◌≤◌, ◌<◌, Bool, true, false, ◌≡◌, inl, inr, arith, Option, none, some, leb,
  if◌then◌else◌, eqb, eqb_iff, subst, sym, Bool-cases,
}

pub data Outcome : Type 0 where
  connected : (attempt : ℕ) → Outcome
  gave_up : Outcome

abbrev pub max_attempts : ℕ
max_attempts = 60

-- The loop, with fuel; `none` means that the fuel ran out. `accepts` tells of each attempt whether
-- RabbitMQ takes it.
unfoldable pub connect_from : (ℕ → Bool) → ℕ → ℕ → Option Outcome
connect_from accepts zero attempt = none
connect_from accepts (suc fuel) attempt =
    let rest = connect_from accepts fuel (attempt + 1) in
    if accepts attempt
    then some (connected attempt)
    else if leb max_attempts attempt
    then some gave_up
    else rest

unfoldable pub connect : (ℕ → Bool) → Option Outcome
unfolding connect_from
connect accepts = connect_from accepts 60 1

module _ (accepts : ℕ → Bool) where
  -- The attempts below `n` were refused.
  abbrev pub IsRefusedBelow : ℕ → Type 0
  IsRefusedBelow n = (k : ℕ) → 1 ≤ k → k < n → accepts k ≡ false

  -- The first accepted attempt, or none of the 60.
  abbrev pub IsOutcome : Outcome → Type 0
  IsOutcome (connected n) = (1 ≤ n) × (n ≤ 60) × (accepts n ≡ true) × IsRefusedBelow n
  IsOutcome gave_up = IsRefusedBelow 61

  refused_next : (n : ℕ) → IsRefusedBelow n → accepts n ≡ false → IsRefusedBelow (n + 1)
  refused_next n h e k low high = elim (Bool-cases (eqb k n)) [
    | inl same ↦ subst (λ x. accepts x ≡ false) (sym ((eqb_iff k n).0 same)) e
    | inr other ↦ h k low (ground arith)
  ]

  connect_from_total :
      (fuel attempt : ℕ)
      → 1 ≤ attempt
      → attempt ≤ 60
      → attempt + fuel ≡ 61
      → IsRefusedBelow attempt
      → (o : Outcome) × (connect_from accepts fuel attempt ≡ some o) × IsOutcome o
  unfolding connect_from
  connect_from_total zero attempt low high enough refused = absurd (omega arith)
  connect_from_total (suc fuel) attempt low high enough refused =
      elim (Bool-cases (accepts attempt)) [
        | inl e ↦ (connected attempt, rw e, (low, high, e, refused))
        | inr e ↦ elim (Bool-cases (leb max_attempts attempt)) [
          | inl last ↦
              (gave_up, rw (e, last), λ k l h. refused_next attempt refused e k l (ground arith))
          | inr more ↦
              rw (e, more)
                (connect_from_total fuel (attempt + 1) (omega arith) (ground arith) (omega arith)
                  (refused_next attempt refused e))
        ]
      ]

  -- `connect` ends: at the first of the attempts 1 to 60 that RabbitMQ accepts, or, if it accepts none
  -- of them, by giving up.
  connect_total : (o : Outcome) × (connect accepts ≡ some o) × IsOutcome o
  unfolding connect
  connect_total =
      connect_from_total 60 1 (omega arith) (omega arith) (omega arith)
        (λ k l h. absurd (omega arith))
