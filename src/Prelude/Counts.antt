-- ===== src/Prelude/Counts.antt =====
-- How often a text is in a list, and a list with one member taken out.
use Prim.Native.Nat.{ℕ, suc, ◌+◌, ◌≤◌}
use mathlib.Core.Path.{◌≡◌, subst}
use mathlib.Core.Logic.{inl, inr}
use mathlib.Core.List.{List, [], ◌∷◌, ◌++◌}
use native.Mathlib.Omega.{arith}
use ankusa.Prelude.Tests.{if◌then◌else◌, Bool-cases}
use ankusa.Prelude.Lists.{Text, All, length, length-append, text_eq, text_eq_refl, text_eq_sound}

abbrev pub times : Text → List Text → ℕ
times m [] = 0
times m (x ∷ xs) = (if text_eq x m then 1 else 0) + times m xs

pub times-append : (m : Text) (xs ys : List Text) → times m (xs ++ ys) ≡ times m xs + times m ys
times-append m [] ys = omega arith
times-append m (x ∷ xs) ys = omega (arith, times-append m xs ys)

pub times_middle :
    (m x : Text) (xs ys : List Text)
    → times m (xs ++ (x ∷ ys)) ≡ (if text_eq x m then 1 else 0) + times m (xs ++ ys)
times_middle m x xs ys = omega (arith, times-append m xs (x ∷ ys), times-append m xs ys)

module _ {ℓ} {A : Type ℓ} where
  pub length_middle : (x : A) (xs ys : List A) → length (xs ++ (x ∷ ys)) ≡ suc (length (xs ++ ys))
  length_middle x xs ys = omega (arith, length-append xs (x ∷ ys), length-append xs ys)

module _ {A : Type 0} where
  pub All_middle :
      (P : A → Type 0) (x : A) (xs ys : List A) → All P (xs ++ (x ∷ ys)) → P x × All P (xs ++ ys)
  All_middle P x [] ys h = h
  All_middle P x (y ∷ xs) ys (p, h) = let (q, rest) = All_middle P x xs ys h in (q, (p, rest))

  pub All_map : (P Q : A → Type 0) → ((a : A) → P a → Q a) → (xs : List A) → All P xs → All Q xs
  All_map P Q f [] h = h
  All_map P Q f (x ∷ xs) (p, h) = (f x p, All_map P Q f xs h)

-- What holds of all members holds of each text that is there.
pub All-times : (P : Text → Type 0) (xs : List Text) → All P xs → (m : Text) → 1 ≤ times m xs → P m
All-times P [] h m n = absurd (ground arith)
All-times P (x ∷ xs) (p, h) m n = elim (Bool-cases (text_eq x m)) [
  | inl e ↦ subst P (text_eq_sound x m e) p
  | inr e ↦ All-times P xs h m (ground (arith, e))
]

pub times-All :
    (P : Text → Type 0) (xs : List Text) → ((m : Text) → 1 ≤ times m xs → P m) → All P xs
times-All P [] f = tt
times-All P (x ∷ xs) f =
    (f x (ground (arith, text_eq_refl x)), times-All P xs (λ m n. f m (ground (arith, n))))
