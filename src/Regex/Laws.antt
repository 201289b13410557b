-- ===== src/Regex/Laws.antt =====
-- What a match means, in terms of its groups.
use ankusa.Prelude.{
  ℕ, zero, suc, ◌-◌, ◌≤◌, ◌<◌, Bool, true, false, Option, none, some, List, [], ◌∷◌, ◌++◌, Text,
  all, length, ◌≡◌, refl, ap, arith, subst, ◌∙◌, Bool-cases, inl, inr, Option-cases,
}
use ankusa.Regex.{Piece, lit, run, strip, push, stop, star, exec, bind}

abbrev pub Fits : List Piece → List Text → Type 0
Fits [] [] = Unit
Fits [] (c ∷ cs) = ⊥
Fits (lit t ∷ ps) cs = Fits ps cs
Fits (run p lo hi ∷ ps) [] = ⊥
Fits (run p lo hi ∷ ps) (c ∷ cs) = (all p c ≡ true) × (lo ≤ length c) × (length c ≤ hi) × Fits ps cs

-- The text that the pattern spells with these groups.
abbrev pub spell : List Piece → List Text → Text
spell [] cs = []
spell (lit t ∷ ps) cs = t ++ spell ps cs
spell (run p lo hi ∷ ps) [] = []
spell (run p lo hi ∷ ps) (c ∷ cs) = c ++ spell ps cs

pub strip_sound : (t s : Text) {r : Text} → strip t s ≡ some r → t ++ r ≡ s
unfolding strip
strip_sound [] s h = ground arith
strip_sound (a ∷ t) [] h = cc
strip_sound (a ∷ t) (c ∷ s) {r} h = ground (arith, strip_sound t s {r = r})

pub strip_self : (t r : Text) → strip t (t ++ r) ≡ some r
unfolding strip
strip_self [] r = refl
strip_self (a ∷ t) r = ground (arith, strip_self t r)

bind-eq-some {ℓ κ} :
    {A : Type ℓ} {B : Type κ} (o : Option A) (f : A → Option B) {b : B}
    → bind o f ≡ some b
    → (a : A) × (o ≡ some a) × (f a ≡ some b)
bind-eq-some none f h = cc
bind-eq-some (some a) f h = (a, refl, h)

-- What `star` found: a run, and groups of the rest that `next` found behind it.
record Found (next : Text → Option (List Text)) (p : ℕ → Bool) (lo hi : ℕ) (s : Text)
    (caps : List Text) : Type 0 where
  here : Text
  rest : Text
  later : List Text
  split : caps ≡ here ∷ later
  joined : here ++ rest ≡ s
  matched : next rest ≡ some later
  fits : (all p here ≡ true) × (lo ≤ length here) × (length here ≤ hi)

module _ (next : Text → Option (List Text)) (p : ℕ → Bool) where
  stop_sound :
      (lo hi : ℕ) (s : Text) (caps : List Text)
      → stop next lo s ≡ some caps
      → Found next p lo hi s caps
  stop_sound lo hi s caps h = elim (Option-cases (next s)) [
    | inl none_here ↦ ground arith
    | inr (later, found) ↦ record {
      here = [];
      rest = s;
      later = later;
      split = ground arith;
      joined = refl;
      matched = found;
      fits = (refl, ground arith, omega arith);
    }
  ]

  push_sound :
      (lo hi c : ℕ) (s : Text) (caps : List Text)
      → p c ≡ true
      → Found next p (lo - 1) hi s caps
      → Found next p lo (suc hi) (c ∷ s) (push c caps)
  push_sound lo hi c s caps h f = record {
    here = c ∷ f.here;
    rest = f.rest;
    later = f.later;
    split = rw f.split;
    joined = ap (λ t. c ∷ t) f.joined;
    matched = f.matched;
    fits = (ground (arith, f.fits.0), omega (arith, f.fits.1), omega (arith, f.fits.2));
  }

  star_sound :
      (lo hi : ℕ) (s : Text) (caps : List Text)
      → star next p lo hi s ≡ some caps
      → Found next p lo hi s caps
  unfolding star
  star_sound lo zero s caps h = stop_sound lo zero s caps h
  star_sound lo (suc hi) [] caps h = stop_sound lo (suc hi) [] caps h
  star_sound lo (suc hi) (c ∷ s) caps h = elim (Bool-cases (p c)) [
    | inl in_class ↦ elim (Option-cases (star next p (lo - 1) hi s)) [
      | inl short ↦ stop_sound lo (suc hi) (c ∷ s) caps (ground arith)
      | inr (caps', long) ↦
          subst (Found next p lo (suc hi) (c ∷ s)) (ground arith)
            (push_sound lo hi c s caps' in_class (star_sound (lo - 1) hi s caps' long))
    ]
    | inr outside ↦ stop_sound lo (suc hi) (c ∷ s) caps (ground arith)
  ]

-- Whatever `exec` returns fits the pattern and spells the text.
pub exec_sound :
    (ps : List Piece) (s : Text) (caps : List Text)
    → exec ps s ≡ some caps
    → Fits ps caps × (spell ps caps ≡ s)
unfolding exec
exec_sound [] [] [] h = (tt, refl)
exec_sound [] [] (c ∷ cs) h = cc
exec_sound [] (c ∷ s) caps h = cc
exec_sound (lit t ∷ ps) s caps h =
    let (r, stripped, matched) = bind-eq-some (strip t s) (exec ps) h in
    let (fits, spelled) = exec_sound ps r caps matched in
    (fits, rw spelled (strip_sound t s stripped))
exec_sound (run p lo hi ∷ ps) s caps h =
    let f = star_sound (exec ps) p lo hi s caps h in
    let (fits, spelled) = exec_sound ps f.rest f.later f.matched in
    rw f.split ((f.fits.0, f.fits.1, f.fits.2, fits), ap (λ t. f.here ++ t) spelled ∙ f.joined)

-- The run has to end where it does: it is full, or what follows is not in its class.
abbrev pub Stops : (ℕ → Bool) → ℕ → Text → Type 0
Stops p zero r = Unit
Stops p (suc n) [] = Unit
Stops p (suc n) (x ∷ r) = p x ≡ false

Stops-head : (p : ℕ → Bool) (n x : ℕ) (r : Text) → 0 < n → Stops p n (x ∷ r) → p x ≡ false
Stops-head p zero x r h s = elim h [ ]
Stops-head p (suc n) x r h s = s

star_complete :
    (next : Text → Option (List Text)) (p : ℕ → Bool) (lo hi : ℕ) (t r : Text) (later : List Text)
    → next r ≡ some later
    → all p t ≡ true
    → lo ≤ length t
    → length t ≤ hi
    → Stops p (hi - length t) r
    → star next p lo hi (t ++ r) ≡ some (t ∷ later)
unfolding star
star_complete next p lo zero [] r later m h l u stops = ground arith
star_complete next p lo (suc hi) [] [] later m h l u stops = ground arith
star_complete next p lo (suc hi) [] (x ∷ r) later m h l u stops =
    ground (arith, Stops-head p (suc hi - 0) x r (omega arith) stops)
star_complete next p lo zero (c ∷ t) r later m h l u stops = absurd (omega arith)
star_complete next p lo (suc hi) (c ∷ t) r later m h l u stops =
    ground (arith, star_complete next p (lo - 1) hi t r later)

-- Every run ends at a fixed width, at a text that begins outside its class, or at the end.
abbrev pub Ends : (ℕ → Bool) → (lo hi : ℕ) → List Piece → Type 0
Ends p lo hi [] = Unit
Ends p lo hi (lit [] ∷ ps) = lo ≡ hi
Ends p lo hi (lit (x ∷ t) ∷ ps) = p x ≡ false
Ends p lo hi (run _ _ _ ∷ ps) = lo ≡ hi

abbrev pub IsDelimited : List Piece → Type 0
IsDelimited [] = Unit
IsDelimited (lit t ∷ ps) = IsDelimited ps
IsDelimited (run p lo hi ∷ ps) = Ends p lo hi ps × IsDelimited ps

Stops-full : (p : ℕ → Bool) (n : ℕ) (r : Text) → n ≡ 0 → Stops p n r
Stops-full p zero r e = tt
Stops-full p (suc n) r e = absurd (omega arith)

Stops-nil : (p : ℕ → Bool) (n : ℕ) → Stops p n []
Stops-nil p zero = tt
Stops-nil p (suc n) = tt

Stops-cons : (p : ℕ → Bool) (n x : ℕ) (r : Text) → p x ≡ false → Stops p n (x ∷ r)
Stops-cons p zero x r h = tt
Stops-cons p (suc n) x r h = h

Ends-Stops :
    (p : ℕ → Bool) (lo hi : ℕ) (ps : List Piece) (t : Text) (cs : List Text)
    → Ends p lo hi ps
    → lo ≤ length t
    → length t ≤ hi
    → Stops p (hi - length t) (spell ps cs)
Ends-Stops p lo hi [] t cs e l u = Stops-nil p _
Ends-Stops p lo hi (lit [] ∷ ps) t cs e l u = Stops-full p _ _ (omega arith)
Ends-Stops p lo hi (lit (x ∷ s) ∷ ps) t cs e l u = Stops-cons p _ x _ e
Ends-Stops p lo hi (run _ _ _ ∷ ps) t cs e l u = Stops-full p _ _ (omega arith)

-- The text that groups spell is matched with just these groups.
pub exec_complete :
    (ps : List Piece) (caps : List Text)
    → IsDelimited ps
    → Fits ps caps
    → exec ps (spell ps caps) ≡ some caps
unfolding exec
exec_complete [] [] d f = refl
exec_complete [] (c ∷ cs) d f = elim f [ ]
exec_complete (lit t ∷ ps) cs d f = rw strip_self (exec_complete ps cs d f)
exec_complete (run p lo hi ∷ ps) [] d f = elim f [ ]
exec_complete (run p lo hi ∷ ps) (c ∷ cs) d f =
    star_complete (exec ps) p lo hi c (spell ps cs) cs (exec_complete ps cs d.1 f.3) f.0 f.1 f.2
      (Ends-Stops p lo hi ps c cs d.0 f.1 f.2)
