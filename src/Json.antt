-- ===== src/Json.antt =====
-- The values that `JSON.parse` returns, and how the SDK reads them.
use ankusa.Prelude.{
  true, false, not, eqb, text_eq, ℕ, String, Bool, Option, none, some, Text, List, [], ◌∷◌, ◌==◌,
  if◌then◌else◌,
}

-- `negsuc n` is -(n + 1).
pub data ℤ : Type 0 where
  pos : ℕ → ℤ
  negsuc : ℕ → ℤ

-- A double: one that `Number.isInteger` accepts, by its value (-0 is 0), or any other, by its bits.
pub data Number : Type 0 where
  whole : ℤ → Number
  other : ℕ → Number

-- An object's own keys are distinct, as `JSON.parse` makes them.
mutual
  pub data Json : Type 0 where
    null : Json
    bool : Bool → Json
    number : Number → Json
    str : Text → Json
    obj : Props → Json
    arr : Elems → Json

  pub data Props : Type 0 where
    end : Props
    prop : String → Json → Props → Props

  pub data Elems : Type 0 where
    nil : Elems
    cons : Json → Elems → Elems

-- `raw[key]`; `none` is `undefined`.
unfoldable pub get : String → Props → Option Json
get k end = none
get k (prop j v ps) = if j == k then some v else get k ps

-- `Object.entries(raw)`.
unfoldable pub entries : Props → List (String × Json)
entries end = []
entries (prop k v ps) = (k, v) ∷ entries ps

-- The equality of the members of a `Set`; two parsed objects are never one.
abbrev pub same_number : Number → Number → Bool
same_number (whole (pos m)) (whole (pos n)) = eqb m n
same_number (whole (negsuc m)) (whole (negsuc n)) = eqb m n
same_number (other m) (other n) = eqb m n
same_number _ _ = false

unfoldable pub same_value : Option Json → Option Json → Bool
unfolding text_eq
same_value none none = true
same_value (some null) (some null) = true
same_value (some (bool true)) (some (bool b)) = b
same_value (some (bool false)) (some (bool b)) = not b
same_value (some (number m)) (some (number n)) = same_number m n
same_value (some (str s)) (some (str t)) = text_eq s t
same_value _ _ = false
