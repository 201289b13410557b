-- ===== src/Conformance/Producer/Map.antt =====
-- The map of the vectors of a file.
use ankusa.Prelude.{
  Bool, true, false, ◌≡◌, refl, sym, ap, ◌∙◌, subst, inl, inr, arith, Option, none, some, List, [],
  ◌∷◌, Text, All, text_eq, text_eq_sound, text_eq_refl, text_eq_iff, if◌then◌else◌, Bool-cases, ok,
  ◌>>=◌,
}
use ankusa.Json.{Json, obj, str, Props, get, same_value}
use ankusa.Conformance.Cases.{feature_id}
use ankusa.Conformance.Producer.{Vectors, map_get, map_set, to_map}

text_eq-sym : (s t : Text) → text_eq s t ≡ false → text_eq t s ≡ false
text_eq-sym s t h = elim (Bool-cases (text_eq t s)) [
  | inl y ↦
      let same : text_eq s t ≡ true = (text_eq_iff s t).1 (sym (text_eq_sound t s y)) in
      absurd (ground (arith, same, h))
  | inr differs ↦ differs
]

-- A vector is an object with a text as its id.
pub record IsNamed (c : Json) : Type 0 where
  pub members : Props
  pub id : Text
  pub is_object : c ≡ obj members
  pub at_id : get "id" members ≡ some (str id)

-- Each id is a text, and none comes again.
abbrev pub IsMap : Vectors → Type 0
IsMap [] = Unit
IsMap (e ∷ es) = ((t : Text) × (e.0 ≡ some (str t))) × (map_get e.0 es ≡ none) × IsMap es

module _ {A : Type 0} where
  pass_on :
      (b : Bool) (a : A) (o : Option A)
      → (if b then some a else o) ≡ none
      → (b ≡ false) × (o ≡ none)
  pass_on true a o h = absurd cc
  pass_on false a o h = (refl, h)

set_other :
    (j k : Text) (c : Json) (m : Vectors)
    → text_eq j k ≡ false
    → map_get (some (str j)) m ≡ none
    → map_get (some (str j)) (map_set (some (str k)) c m) ≡ none
unfolding same_value
set_other j k c [] h e = rw h refl
set_other j k c ((id, d) ∷ m) h e =
    let (differs, rest) = pass_on (same_value (some (str j)) id) d (map_get (some (str j)) m) e in
    elim (Bool-cases (same_value (some (str k)) id)) [
      | inl y ↦ rw (y, differs) rest
      | inr n ↦ rw (n, differs) (set_other j k c m h rest)
    ]

set_first :
    (k : Text) (c : Json) (t : Text) (d : Json) (m : Vectors)
    → map_get (some (str t)) m ≡ none
    → IsMap m
    → IsMap (map_set (some (str k)) c m)
    → (b : Bool) → text_eq k t ≡ b
    → IsMap (map_set (some (str k)) c ((some (str t), d) ∷ m))
unfolding same_value
set_first k c t d m free i rest true e = rw e ((t, refl), free, i)
set_first k c t d m free i rest false e =
    rw e ((t, refl), set_other t k c m (text_eq-sym k t e) free, rest)

set-IsMap : (k : Text) (c : Json) (m : Vectors) → IsMap m → IsMap (map_set (some (str k)) c m)
unfolding same_value
set-IsMap k c [] h = ((k, refl), refl, tt)
set-IsMap k c ((id, d) ∷ m) ((t, e), free, h) =
    subst (λ id. IsMap (map_set (some (str k)) c ((id, d) ∷ m))) (sym e)
      (set_first k c t d m (subst (λ id. map_get id m ≡ none) e free) h (set-IsMap k c m h)
        (text_eq k t) refl)

pub named-IsMap :
    (cs : List Json) (m : Vectors)
    → All IsNamed cs
    → IsMap m
    → (n : Vectors) × (to_map m cs ≡ ok n) × IsMap n
unfolding to_map
named-IsMap [] m h i = (m, refl, i)
named-IsMap (c ∷ cs) m (x, h) i =
    let named : feature_id c ≡ ok (some (str x.id)) = rw x.is_object (ap ok x.at_id) in
    let (n, e, good) = named-IsMap cs (map_set (some (str x.id)) c m) h (set-IsMap x.id c m i) in
    (n, ap (λ r. r >>= λ id. to_map (map_set id c m) cs) named ∙ e, good)

-- Whatever is asked of the map for its own keys is there.
abbrev pub Finds : Vectors → Vectors → Type 0
Finds m es = All (λ e. map_get e.0 m ≡ some e.1) es

Finds-more :
    (t : Text) (c : Json) (m es : Vectors)
    → IsMap es
    → map_get (some (str t)) es ≡ none
    → Finds m es
    → Finds ((some (str t), c) ∷ m) es
unfolding same_value
Finds-more t c m [] i free h = tt
Finds-more t c m ((id, d) ∷ es) ((k, e), other, i) free (x, h) =
    let (differs, rest) =
      pass_on (same_value (some (str t)) id) d (map_get (some (str t)) es) free in
    let apart : text_eq k t ≡ false =
      text_eq-sym t k (subst (λ id. same_value (some (str t)) id ≡ false) e differs) in
    let other_key : same_value id (some (str t)) ≡ false =
      subst (λ id. same_value id (some (str t)) ≡ false) (sym e) apart in
    (rw other_key x, Finds-more t c m es i rest h)

pub own : (m : Vectors) → IsMap m → Finds m m
unfolding same_value
own [] i = tt
own ((id, c) ∷ m) ((t, e), free, i) =
    subst (λ id. Finds ((id, c) ∷ m) ((id, c) ∷ m)) (sym e)
      (
        rw (text_eq_refl t) refl,
        Finds-more t c m m i (subst (λ id. map_get id m ≡ none) e free) (own m i),
      )
