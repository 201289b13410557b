-- ===== src/EventRouting/Start/Laws.antt =====
-- Cutting a text at a separator, as the list of brokers is.
use ankusa.Prelude.{
  ℕ, Bool, true, false, not, ◌≡◌, refl, sym, subst, eqb_iff, ap, ◌∙◌, List, [], ◌∷◌, Text, All, all,
  eqb, if◌then◌else◌,
}
use ankusa.EventRouting.Start.{add_to_first, split, join}

abbrev IsUncut : ℕ → Text → Type 0
IsUncut c t = all (λ x. not (eqb x c)) t ≡ true

join-add_to_first :
    (c x : ℕ) (ts : List Text) → join (c ∷ []) (add_to_first x ts) ≡ x ∷ join (c ∷ []) ts
join-add_to_first c x [] = refl
join-add_to_first c x (t ∷ []) = refl
join-add_to_first c x (t ∷ u ∷ ts) = refl

split_first : (c : ℕ) (s : Text) → (t : Text) × (ts : List Text) × (split c s ≡ t ∷ ts)
unfolding split
split_first c [] = ([], [], refl)
split_first c (x ∷ s) = first_by (eqb x c) (split_first c s)
  where
    first_by :
        (cut : Bool)
        → (t : Text) × (ts : List Text) × (split c s ≡ t ∷ ts)
        → (t : Text) × (ts : List Text) × ((if cut
              then [] ∷ split c s
              else add_to_first x (split c s))
            ≡ t ∷ ts)
    first_by true r = ([], split c s, refl)
    first_by false (t, ts, e) = (x ∷ t, ts, ap (add_to_first x) e)

module _ (c x : ℕ) where
  join-split_more :
      (parts : List Text) (s t : Text) (ts : List Text) (cut : Bool)
      → parts ≡ t ∷ ts
      → eqb x c ≡ cut
      → join (c ∷ []) parts ≡ s
      → join (c ∷ []) (if cut then [] ∷ parts else add_to_first x parts) ≡ x ∷ s
  join-split_more parts s t ts true e same h =
      let first : join (c ∷ []) ([] ∷ parts) ≡ c ∷ join (c ∷ []) parts =
        subst (λ l. join (c ∷ []) ([] ∷ l) ≡ c ∷ join (c ∷ []) l) (sym e) refl in
      first ∙ (ap (λ l. c ∷ l) h ∙ ap (λ n. n ∷ s) (sym ((eqb_iff x c).0 same)))
  join-split_more parts s t ts false e same h = join-add_to_first c x parts ∙ ap (λ l. x ∷ l) h

  split-IsUncut_more :
      (parts : List Text) (cut : Bool)
      → eqb x c ≡ cut
      → All (IsUncut c) parts
      → All (IsUncut c) (if cut then [] ∷ parts else add_to_first x parts)
  split-IsUncut_more parts true e h = (refl, h)
  split-IsUncut_more [] false e h = (rw e refl, tt)
  split-IsUncut_more (t ∷ ts) false e (p, h) = (rw (e, p) refl, h)

-- Joined again, the parts of a text are the text, and none of them has the separator.
split_lem : (c : ℕ) (s : Text) → (join (c ∷ []) (split c s) ≡ s) × All (IsUncut c) (split c s)
unfolding split
split_lem c [] = (refl, (refl, tt))
split_lem c (x ∷ s) =
    let (t, ts, e) = split_first c s in
    let (joined, uncut) = split_lem c s in
    (
      join-split_more c x (split c s) s t ts (eqb x c) e refl joined,
      split-IsUncut_more c x (split c s) (eqb x c) refl uncut,
    )
