-- ===== src/Regex.antt =====
-- The regular expressions of the SDK that are anchored at both ends and consist of fixed texts and
-- bounded runs of a character class, matched the way a JavaScript engine does: greedily, with
-- backtracking.
pub mod Laws
use ankusa.Prelude.{
  ℕ, zero, suc, ◌-◌, Bool, true, false, ◌&&◌, Option, none, some, List, [], ◌∷◌, Text, leb, eqb,
  all, length, if◌then◌else◌,
}
use mathlib.Core.Option

pub data Piece : Type 0 where
  lit : Text → Piece
  -- a named group `[class]{lo,hi}`
  run : (ℕ → Bool) → (lo hi : ℕ) → Piece

-- The rest of `s` behind the text `t`.
unfoldable pub strip : Text → Text → Option Text
strip [] s = some s
strip (a ∷ t) [] = none
strip (a ∷ t) (c ∷ s) = if eqb a c then strip t s else none

abbrev pub or_else {ℓ} : {A : Type ℓ} → Option A → Option A → Option A
or_else (some a) o = some a
or_else none o = o

-- One more character of the run that the rest of the match begins with.
abbrev pub push : ℕ → List Text → List Text
push c [] = []
push c (t ∷ ts) = (c ∷ t) ∷ ts

-- The run may end here, if it is long enough and what follows matches.
abbrev pub stop : (Text → Option (List Text)) → ℕ → Text → Option (List Text)
stop next lo s = if eqb lo 0 then Option.map (λ ts. [] ∷ ts) (next s) else none

-- The longest run is tried first.
unfoldable pub star : (Text → Option (List Text)) → (ℕ → Bool) → ℕ → ℕ → Text → Option (List Text)
star next p lo zero s = stop next lo s
star next p lo (suc hi) [] = stop next lo []
star next p lo (suc hi) (c ∷ s) =
    let longer = Option.map (push c) (star next p (lo - 1) hi s) in
    if p c then or_else longer (stop next lo (c ∷ s)) else stop next lo (c ∷ s)

abbrev pub bind {ℓ κ} : {A : Type ℓ} {B : Type κ} → Option A → (A → Option B) → Option B
bind none f = none
bind (some a) f = f a

-- `pattern.exec(text)`: the groups in order.
unfoldable pub exec : List Piece → Text → Option (List Text)
unfolding star strip
exec [] [] = some []
exec [] (c ∷ s) = none
exec (lit t ∷ ps) s = bind (strip t s) (exec ps)
exec (run p lo hi ∷ ps) s = star (exec ps) p lo hi s

-- `/^[class]{lo,hi}$/.test(text)`.
abbrev pub is_run : (ℕ → Bool) → ℕ → ℕ → Text → Bool
is_run p lo hi s = leb lo (length s) && leb (length s) hi && all p s
