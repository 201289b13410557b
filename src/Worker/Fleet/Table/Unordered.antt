-- ===== src/Worker/Fleet/Table/Unordered.antt =====
-- The table of the fleet consumer as a view of the statements that the database took, which forgets
-- their order.
use mathlib.Core.Bool.{Bool-set}
use mathlib.Core.List.{Permᴰ}
use mathlib.Core.Quot
use mathlib.Core.Quot.{Quot}
use native.Mathlib.Nat.{ℕ_set}
use ankusa.Prelude.{
  ℕ, ◌≡◌, refl, sym, ap, ◌∙◌, arith, Bool, false, ◌&&◌, ◌||◌, Option, none, some, List, Text,
  text_eq,
}
use ankusa.Worker.Fleet.{World, Entry, Row, Table, has_id}
use ankusa.Worker.Fleet.Table.{lookup_row, count, recorded, IsSummary, Represents}
use ankusa.Worker.Fleet.System.{Fleet, Reach}
use ankusa.Worker.Fleet.Safety.{Reach-Represents}

-- Statements up to their order.
abbrev pub Statements : Type 0
Statements = Quot (Permᴰ {A = Entry})

abbrev pub of_log : List Entry → Statements
of_log = Quot.mk

pub count_permuted : (k : Text) {xs ys : List Entry} → Permᴰ xs ys → count k xs ≡ count k ys
count_permuted k Permᴰ.nil = refl
count_permuted k (Permᴰ.cons e p) = rw (e, count_permuted k p) refl
count_permuted k (Permᴰ.swap e f) = rw (e, f) (omega arith)
count_permuted k (Permᴰ.trans p q) = count_permuted k p ∙ count_permuted k q

or_swap : (a b c : Bool) → (a || (b || c)) ≡ (b || (a || c))
or_swap a b c = ground arith

pub recorded_permuted :
    (k id : Text) {xs ys : List Entry} → Permᴰ xs ys → recorded k id xs ≡ recorded k id ys
recorded_permuted k id Permᴰ.nil = refl
recorded_permuted k id (Permᴰ.cons e p) = rw (e, recorded_permuted k id p) refl
recorded_permuted k id (Permᴰ.swap {a' = a} {b' = b} {l = l} e f) =
    rw (e, f)
      (or_swap (text_eq b.key k && text_eq b.ankusa_id id)
        (text_eq a.key k && text_eq a.ankusa_id id) (recorded k id l))
recorded_permuted k id (Permᴰ.trans p q) = recorded_permuted k id p ∙ recorded_permuted k id q

-- How many statements have a key, and whether one of them has an id.
unfoldable pub deliveries_of : Text → Statements → ℕ
deliveries_of k = Quot.lift ℕ_set (count k) (λ xs ys p. count_permuted k p)

unfoldable pub has_of : Text → Text → Statements → Bool
has_of k id = Quot.lift Bool-set (recorded k id) (λ xs ys p. recorded_permuted k id p)

-- What a reader of the table finds at a key; no row counts nothing.
abbrev row_deliveries : Option Row → ℕ
row_deliveries none = 0
row_deliveries (some row) = row.deliveries

abbrev row_has : Text → Option Row → Bool
row_has id none = false
row_has id (some row) = has_id id row.hook_ids

abbrev pub deliveries_at : Text → Table → ℕ
deliveries_at k t = row_deliveries (lookup_row k t)

abbrev pub has_at : Text → Text → Table → Bool
has_at k id t = row_has id (lookup_row k t)

summary_deliveries :
    (k : Text) (log : List Entry) (o : Option Row)
    → IsSummary k log o
    → row_deliveries o ≡ count k log
summary_deliveries k log none (zero_times, no_first, ids) = sym zero_times
summary_deliveries k log (some row) r = r.counted

summary_has :
    (k id : Text) (log : List Entry) (o : Option Row)
    → IsSummary k log o
    → row_has id o ≡ recorded k id log
summary_has k id log none (zero_times, no_first, ids) = sym (ids id)
summary_has k id log (some row) r = r.ids id

-- In every reachable state, whatever the order in which the handlers came to write, the table holds at
-- each key the number of the statements of the key, and just their ids: as a view of the statements up
-- to their order.
pub table_unordered :
    (w : World) (f : Fleet)
    → Reach w f
    → (k id : Text)
    → (deliveries_at k f.table ≡ deliveries_of k (of_log f.log))
      × (has_at k id f.table ≡ has_of k id (of_log f.log))
unfolding deliveries_of has_of
table_unordered w f reached k id =
    let good : Represents f.table f.log = Reach-Represents w f reached in
    (
      summary_deliveries k f.log (lookup_row k f.table) (good k),
      summary_has k id f.log (lookup_row k f.table) (good k),
    )

-- Two reachable states in which the database took the same statements, in whatever orders, have at each
-- key the same number of deliveries and the same ids.
pub tables_agree :
    (w : World) (f g : Fleet)
    → Reach w f
    → Reach w g
    → of_log f.log ≡ of_log g.log
    → (k id : Text)
    → (deliveries_at k f.table ≡ deliveries_at k g.table)
      × (has_at k id f.table ≡ has_at k id g.table)
tables_agree w f g at_f at_g same k id =
    let (n, i) = table_unordered w f at_f k id in
    let (m, j) = table_unordered w g at_g k id in
    (n ∙ (ap (deliveries_of k) same ∙ sym m), i ∙ (ap (has_of k id) same ∙ sym j))
