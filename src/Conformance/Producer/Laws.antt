-- ===== src/Conformance/Producer/Laws.antt =====
-- What the comparison of the producer vectors finds.
use ankusa.Prelude.{
  Bool, true, false, ◌≡◌, ◌↔◌, refl, ap, ◌∙◌, subst, arith, Option, List, [], ◌∷◌, Text, All,
  text_eq_sound, text_eq_iff, if◌then◌else◌, ok, ◌>>=◌, bind-eq-ok, ok-injective,
}
use ankusa.Json.{Json}
use ankusa.Conformance.Producer.{
  World, Problem, mix_failed, not_checked_in, not_generated, has_succeeded, run_mix, mix_commands,
  cases_of, Vectors, to_map, vectors, absent_vectors, stale_vectors, or_identical, compare_files,
  after_mix, producer_problems,
}
use ankusa.Conformance.Producer.Map.{IsNamed, IsMap, named-IsMap, Finds, own}

module _ {A : Type 0} where
  goes_on :
      (b : Bool) (a : A) (rest : List A)
      → (if b then rest else a ∷ []) ≡ []
      → (b ≡ true) × (rest ≡ [])
  goes_on true a rest h = (refl, h)
  goes_on false a rest h = absurd cc

absent_none :
    (p : Option Json → Problem) (there es : Vectors)
    → Finds there es
    → absent_vectors p there es ≡ []
unfolding absent_vectors
absent_none p there [] h = refl
absent_none p there (e ∷ es) (x, h) = rw (x, absent_none p there es h) refl

module _ (w : World) (deep_equal-refl : (v : Json) → w.deep_equal v v ≡ true) where
  stale_none : (there es : Vectors) → Finds there es → stale_vectors w there es ≡ []
  unfolding stale_vectors
  stale_none there [] h = refl
  stale_none there (e ∷ es) (x, h) =
      rw (x, stale_none there es h) (ground (arith, deep_equal-refl e.1))

  mix_none :
      (steps : List (List Text))
      → (run_mix w steps ≡ []) ↔ All (λ args. has_succeeded (w.mix args) ≡ true) steps
  unfolding run_mix
  mix_none [] = (λ h. tt, λ h. refl)
  mix_none (args ∷ steps) = (
    λ h.
        let (e, rest) =
          goes_on (has_succeeded (w.mix args)) (mix_failed args (w.mix args)) (run_mix w steps) h in
        (e, (mix_none steps).0 rest),
    λ (e, h). rw (e, (mix_none steps).1 h) refl,
  )

  identical_iff :
      (ps : List Problem) → (or_identical w ps ≡ []) ↔ ((ps ≡ []) × (w.generated ≡ w.checked_in))
  identical_iff (p ∷ ps) = (λ h. absurd cc, λ (h, e). absurd cc)
  identical_iff [] = (
    λ h. (refl, text_eq_sound w.generated w.checked_in (ground (arith, h))),
    λ (h, e). rw ((text_eq_iff w.generated w.checked_in).1 e) refl,
  )

  after_mix_empty :
      (ps : List Problem) → after_mix w ps ≡ ok [] → (ps ≡ []) × (compare_files w ≡ ok [])
  after_mix_empty [] h = (refl, h)
  after_mix_empty (p ∷ ps) h = absurd cc

  compare_files_sound : compare_files w ≡ ok [] → w.generated ≡ w.checked_in
  unfolding compare_files
  compare_files_sound h =
      let (now, _, h1) = bind-eq-ok (vectors w w.generated) _ h in
      let (before, _, h2) = bind-eq-ok (vectors w w.checked_in) _ h1 in
      ((identical_iff _).0 (ok-injective _ _ h2)).1

  compare_files_complete :
      (n : Vectors)
      → vectors w w.generated ≡ ok n
      → IsMap n
      → w.generated ≡ w.checked_in
      → compare_files w ≡ ok []
  unfolding compare_files
  compare_files_complete n e i same =
      let f : vectors w w.checked_in ≡ ok n = subst (λ t. vectors w t ≡ ok n) same e in
      let found = own n i in
      rw
        (
          e,
          f,
          absent_none not_checked_in n n found,
          absent_none not_generated n n found,
          stale_none n n found,
        )
        (ap ok ((identical_iff []).1 (refl, same)))

  -- Where the generated file holds vectors with texts as their ids, the comparison throws nothing and
  -- finds nothing if and only if all of the commands succeed and the file that is checked in is the one
  -- that is generated. (`isDeepStrictEqual` takes every value for equal to itself.)
  pub producer_problems_iff :
      (cs : List Json)
      → cases_of (w.parse w.generated) ≡ ok cs
      → All IsNamed cs
      → (producer_problems w ≡ ok []) ↔ (
          All (λ args. has_succeeded (w.mix args) ≡ true) (mix_commands w)
          × (w.generated ≡ w.checked_in))
  unfolding producer_problems vectors
  producer_problems_iff cs parsed named =
      let (n, e, i) = named-IsMap cs [] named tt in
      let found : vectors w w.generated ≡ ok n = ap (λ r. r >>= λ cs. to_map [] cs) parsed ∙ e in
      (
        λ h.
            let (mixed, same) = after_mix_empty (run_mix w (mix_commands w)) h in
            ((mix_none (mix_commands w)).0 mixed, compare_files_sound same),
        λ (mixed, same).
            ap (after_mix w) ((mix_none (mix_commands w)).1 mixed)
            ∙ compare_files_complete n found i same,
      )
