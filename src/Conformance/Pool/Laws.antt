-- ===== src/Conformance/Pool/Laws.antt =====
-- The end of the pool that runs the SDKs, and what was run by then.
use ankusa.Prelude.{
  times, times_middle, length_middle, ℕ, ◌+◌, ◌*◌, ◌<◌, ◌≡◌, refl, ap, arith, List, Text, All, min,
  length, map,
}
use ankusa.Conformance.Pool.{Pool, Step, shift, finish, Reach, here, later}

abbrev pub names_of : List (Text × ℕ) → List Text
names_of = map (λ r. r.0)

-- What is left to do.
abbrev pub work : Pool → ℕ
work p = 2 * length p.queue + length p.running

module _ (run : Text → ℕ) where
  -- Each result is of its own SDK's run.
  abbrev pub IsResult : Text × ℕ → Type 0
  IsResult r = r.1 ≡ run r.0

  -- Every step leaves less to do.
  pub Step-work : (p q : Pool) → Step run p q → work q < work p
  Step-work p _ (shift name rest idle e free) = omega (arith, ap length e)
  Step-work p _ (finish name xs ys e) = omega (arith, ap length e, length_middle name xs ys)

  module _ (names : List Text) (limit : ℕ) where
    pub record Inv (p : Pool) : Type 0 where
      pub conserved :
          (m : Text)
          → times m names ≡ times m p.queue + times m p.running + times m (names_of p.results)
      pub loops : length p.running + p.idle ≡ min limit (length names)
      pub own : All IsResult p.results

    Step-Inv : {p q : Pool} → Step run p q → Inv p → Inv q
    Step-Inv {p} (shift name rest idle e free) i = record {
      conserved = λ m. omega (arith, i.conserved m, ap (times m) e);
      loops = omega (arith, i.loops, free);
      own = i.own;
    }
    Step-Inv {p} (finish name xs ys e) i = record {
      conserved = λ m. omega (arith, i.conserved m, ap (times m) e, times_middle m name xs ys);
      loops = omega (arith, i.loops, ap length e, length_middle name xs ys);
      own = (refl, i.own);
    }

    pub Reach-Inv : {p : Pool} → Reach run names limit p → Inv p
    Reach-Inv here = record { conserved = λ m. omega arith; loops = omega arith; own = tt {0} }
    Reach-Inv (later r s) = Step-Inv s (Reach-Inv r)
