-- ===== src/Worker/Fleet/Table/Laws.antt =====
-- What the upsert does to the summary of the statements.
use ankusa.Prelude.{
  suc, ◌+◌, ◌≤◌, Bool, true, false, ◌||◌, ◌≡◌, inl, inr, refl, sym, ap, ◌∙◌, subst, arith, Option,
  none, some, List, [], ◌∷◌, ◌++◌, Text, ltb, text_eq, text_eq_sound, text_eq_refl, if◌then◌else◌,
  Bool-cases,
}
use ankusa.Worker.Fleet.{
  Entry, Row, Table, new_row, has_id, max_integer, add_id, bump, with_row, with_rest, upsert_at,
  upsert,
}
use ankusa.Worker.Fleet.Table.{lookup_row, distinct, IsRow, IsSummary, Represents}

text_eq-false : (s t u : Text) → text_eq s t ≡ true → text_eq t u ≡ false → text_eq s u ≡ false
text_eq-false s t u h k = subst (λ x. text_eq x u ≡ false) (sym (text_eq_sound s t h)) k

with_row_inv :
    (key : Text) (t t' : Table) (o : Option Row)
    → with_row key t o ≡ some t'
    → (row : Row) × (o ≡ some row) × ((key, row) ∷ t ≡ t')
with_row_inv key t t' none h = absurd (ground arith)
with_row_inv key t t' (some row) h = (row, refl, ground arith)

with_rest_inv :
    (key : Text) (row : Row) (o : Option Table) (t' : Table)
    → with_rest key row o ≡ some t'
    → (t : Table) × (o ≡ some t) × ((key, row) ∷ t ≡ t')
with_rest_inv key row none t' h = absurd (ground arith)
with_rest_inv key row (some t) t' h = (t, refl, ground arith)

-- A statement leaves the rows of the other keys.
other_at :
    (e : Entry) (k key : Text) (row : Row) (t t' : Table) (rest : Option Table) (b : Bool)
    → text_eq e.key k ≡ false
    → text_eq key e.key ≡ b
    → ((u : Table) → rest ≡ some u → lookup_row k u ≡ lookup_row k t)
    → upsert_at e key row t rest b ≡ some t'
    → lookup_row k t' ≡ lookup_row k ((key, row) ∷ t)
other_at e k key row t t' rest true h same keeps up =
    let (row', _, done) = with_row_inv key t t' (bump e row) up in
    subst (λ x. lookup_row k x ≡ lookup_row k ((key, row) ∷ t)) done
      (rw (text_eq-false key e.key k same h))
other_at e k key row t t' rest false h other keeps up =
    let (u, taken, done) = with_rest_inv key row rest t' up in
    subst (λ x. lookup_row k x ≡ lookup_row k ((key, row) ∷ t)) done (rw (keeps u taken))

upsert_other :
    (e : Entry) (k : Text) (t t' : Table)
    → text_eq e.key k ≡ false
    → upsert e t ≡ some t'
    → lookup_row k t' ≡ lookup_row k t
unfolding upsert
upsert_other e k [] t' h up =
    let done : (e.key, new_row e) ∷ [] ≡ t' = ground arith in
    subst (λ x. lookup_row k x ≡ none) done (rw h)
upsert_other e k ((key, row) ∷ t) t' h up =
    other_at e k key row t t' (upsert e t) (text_eq key e.key) h refl
      (λ u taken. upsert_other e k t u h taken) up

-- A statement makes the row of its key, or bumps it.
abbrev IsNext : Entry → Option Row → Option Row → Type 0
IsNext e none o = o ≡ some (new_row e)
IsNext e (some row) o = (o ≡ bump e row) × ((row' : Row) × (o ≡ some row'))

own_at :
    (e : Entry) (key : Text) (row : Row) (t t' : Table) (rest : Option Table) (b : Bool)
    → text_eq key e.key ≡ b
    → ((u : Table) → rest ≡ some u → IsNext e (lookup_row e.key t) (lookup_row e.key u))
    → upsert_at e key row t rest b ≡ some t'
    → IsNext e (lookup_row e.key ((key, row) ∷ t)) (lookup_row e.key t')
own_at e key row t t' rest true same keeps up =
    let (row', bumped, done) = with_row_inv key t t' (bump e row) up in
    subst (λ x. IsNext e (lookup_row e.key ((key, row) ∷ t)) (lookup_row e.key x)) done
      (rw same (sym bumped, (row', refl)))
own_at e key row t t' rest false other keeps up =
    let (u, taken, done) = with_rest_inv key row rest t' up in
    subst (λ x. IsNext e (lookup_row e.key ((key, row) ∷ t)) (lookup_row e.key x)) done
      (rw other (keeps u taken))

upsert_own :
    (e : Entry) (t t' : Table)
    → upsert e t ≡ some t'
    → IsNext e (lookup_row e.key t) (lookup_row e.key t')
unfolding upsert
upsert_own e [] t' up =
    let done : (e.key, new_row e) ∷ [] ≡ t' = ground arith in
    subst (λ x. IsNext e none (lookup_row e.key x)) done (rw (text_eq_refl e.key))
upsert_own e ((key, row) ∷ t) t' up =
    own_at e key row t t' (upsert e t) (text_eq key e.key) refl (upsert_own e t) up

-- The first statement of a key is taken, and its values are the row.
pub upsert-new :
    (e : Entry) (t : Table)
    → lookup_row e.key t ≡ none
    → (u : Table) × (upsert e t ≡ some u) × (lookup_row e.key u ≡ some (new_row e))
unfolding upsert
upsert-new e [] h = ((e.key, new_row e) ∷ [], refl, rw (text_eq_refl e.key) refl)
upsert-new e ((key, row) ∷ t) h = elim (Bool-cases (text_eq key e.key)) [
  | inl same ↦ absurd (some_row (text_eq key e.key) same h)
  | inr other ↦
      let (u, taken, found) =
        upsert-new e t (sym (ap (λ b. if b then some row else lookup_row e.key t) other) ∙ h) in
      ((key, row) ∷ u, rw (other, taken) refl, rw other found)
]
  where
    some_row : (b : Bool) → b ≡ true → (if b then some row else lookup_row e.key t) ≡ none → ⊥
    some_row true e h = cc
    some_row false e h = cc

text_eq_comm : (s t : Text) → text_eq s t ≡ text_eq t s
unfolding text_eq
text_eq_comm [] [] = refl
text_eq_comm (a ∷ s) (b ∷ t) = ground (arith, text_eq_comm s t)
text_eq_comm [] (b ∷ t) = refl
text_eq_comm (a ∷ s) [] = refl

has_id-append :
    (id x : Text) (ids : List Text) → has_id id (ids ++ (x ∷ [])) ≡ (has_id id ids || text_eq x id)
has_id-append id x [] = ground arith
has_id-append id x (y ∷ ids) = ground (arith, has_id-append id x ids)

distinct-append :
    (ids : List Text) (x : Text)
    → distinct ids ≡ true
    → has_id x ids ≡ false
    → distinct (ids ++ (x ∷ [])) ≡ true
distinct-append [] x d h = refl
distinct-append (y ∷ ids) x d h =
    ground (arith, distinct-append ids x, has_id-append y x ids, text_eq_comm y x)

has_id-add_id :
    (id x : Text) (ids : List Text) → has_id id (add_id x ids) ≡ (text_eq x id || has_id id ids)
has_id-add_id id x ids = elim (Bool-cases (has_id x ids)) [
  | inr new ↦ rw new (ground (arith, has_id-append id x ids))
  | inl old ↦ elim (Bool-cases (text_eq x id)) [
    | inr other ↦ rw (old, other)
    | inl same ↦
        let known = subst (λ y. has_id y ids ≡ true) (text_eq_sound x id same) old in
        rw (old, same, known)
  ]
]

distinct-add_id :
    (x : Text) (ids : List Text) → distinct ids ≡ true → distinct (add_id x ids) ≡ true
distinct-add_id x ids d = elim (Bool-cases (has_id x ids)) [
  | inl h ↦ rw h d
  | inr h ↦ rw h (distinct-append ids x d h)
]

other-IsSummary :
    (e : Entry) (k : Text) (log : List Entry) (o : Option Row)
    → text_eq e.key k ≡ false
    → IsSummary k log o
    → IsSummary k (e ∷ log) o
other-IsSummary e k log none h (counted, firsts, ids) =
    (rw (h, counted), rw (h, firsts), λ id. rw (h, ids id))
other-IsSummary e k log (some row) h r = record {
  counted = rw h (omega (arith, r.counted));
  some_delivery = r.some_delivery;
  fits = r.fits;
  ids = λ id. rw h (r.ids id);
  once = r.once;
  origin = r.origin;
  is_first = rw r.is_first;
  kept_id = r.kept_id;
  kept_source = r.kept_source;
  kept_tenant = r.kept_tenant;
  kept_body = r.kept_body;
  kept_digest = r.kept_digest;
  kept_via = r.kept_via;
}

new_summary :
    (e : Entry) (log : List Entry) → IsSummary e.key log none → IsRow e.key (e ∷ log) (new_row e)
new_summary e log (counted, firsts, ids) =
    let same = text_eq_refl e.key in
    record {
      counted = rw (same, counted);
      some_delivery = omega arith;
      fits = omega arith;
      ids = λ id. rw same (ground (arith, ids id));
      once = refl;
      origin = e;
      is_first = rw (same, firsts);
      kept_id = refl;
      kept_source = refl;
      kept_tenant = refl;
      kept_body = refl;
      kept_digest = refl;
      kept_via = refl;
    }

taken : (b : Bool) (x y : Row) → (if b then some x else none) ≡ some y → (b ≡ true) × (x ≡ y)
taken true x y h = (refl, ground arith)
taken false x y h = absurd (ground arith)

bump_inv :
    (e : Entry) (row row' : Row)
    → bump e row ≡ some row'
    → (suc row.deliveries ≤ max_integer)
      × (record row { deliveries = row.deliveries + 1; hook_ids = add_id e.ankusa_id row.hook_ids }
          ≡ row')
unfolding bump
bump_inv e row row' h =
    let (fits, same) = taken (ltb row.deliveries max_integer) _ row' h in (ground arith, same)

bumped_summary :
    (e : Entry) (log : List Entry) (row row' : Row)
    → IsRow e.key log row
    → bump e row ≡ some row'
    → IsRow e.key (e ∷ log) row'
bumped_summary e log row row' r h =
    let (fits, done) = bump_inv e row row' h in
    let same = text_eq_refl e.key in
    subst (IsRow e.key (e ∷ log)) done (record {
      counted = rw same (omega (arith, r.counted));
      some_delivery = omega arith;
      fits = omega (arith, fits);
      ids = λ id. rw (same, has_id-add_id id e.ankusa_id row.hook_ids, r.ids id);
      once = distinct-add_id e.ankusa_id row.hook_ids r.once;
      origin = r.origin;
      is_first = rw r.is_first;
      kept_id = r.kept_id;
      kept_source = r.kept_source;
      kept_tenant = r.kept_tenant;
      kept_body = r.kept_body;
      kept_digest = r.kept_digest;
      kept_via = r.kept_via;
    })

own-IsSummary :
    (e : Entry) (log : List Entry) (o o' : Option Row)
    → IsSummary e.key log o
    → IsNext e o o'
    → IsSummary e.key (e ∷ log) o'
own-IsSummary e log none o' r next = rw next (new_summary e log r)
own-IsSummary e log (some row) o' r (next, (row', e')) =
    rw e' (bumped_summary e log row row' r (sym next ∙ e'))

-- The statement keeps the table the summary of what was taken.
pub upsert-Represents :
    (e : Entry) (t t' : Table) (log : List Entry)
    → Represents t log
    → upsert e t ≡ some t'
    → Represents t' (e ∷ log)
upsert-Represents e t t' log good up k = elim (Bool-cases (text_eq e.key k)) [
  | inr other ↦
      subst (IsSummary k (e ∷ log)) (sym (upsert_other e k t t' other up))
        (other-IsSummary e k log (lookup_row k t) other (good k))
  | inl same ↦
      subst (λ x. IsSummary x (e ∷ log) (lookup_row x t')) (text_eq_sound e.key k same)
        (own-IsSummary e log (lookup_row e.key t) (lookup_row e.key t') (good e.key)
          (upsert_own e t t' up))
]
