-- ===== src/Worker/Fleet/Table.antt =====
-- What the table of the fleet consumer is in terms of the statements that it took.
pub mod Laws
pub mod Unordered
mod Tests
use ankusa.Prelude.{
  ℕ, zero, suc, ◌+◌, ◌≤◌, Bool, true, false, not, ◌&&◌, ◌||◌, ◌≡◌, ◌⊎◌, inl, inr, refl, ap, sym,
  ◌∙◌, subst, arith, Option, none, some, List, [], ◌∷◌, ◌++◌, Text, any, ltb, text_eq,
  text_eq_sound, text_eq_refl, if◌then◌else◌, Bool-cases, Option-cases,
}
use ankusa.Worker.Fleet.{
  Entry, Row, Table, new_row, has_id, max_integer, add_id, bump, with_row, with_rest, upsert_at,
  upsert,
}

abbrev pub lookup_row : Text → Table → Option Row
lookup_row k [] = none
lookup_row k ((key, row) ∷ t) = if text_eq key k then some row else lookup_row k t

-- The statements that were taken, the last first: how many have a key, which ids they have, and the
-- first of them.
abbrev pub count : Text → List Entry → ℕ
count k [] = 0
count k (e ∷ log) = (if text_eq e.key k then 1 else 0) + count k log

abbrev pub recorded : Text → Text → List Entry → Bool
recorded k id [] = false
recorded k id (e ∷ log) = (text_eq e.key k && text_eq e.ankusa_id id) || recorded k id log

abbrev pub or_last : Option Entry → Bool → Entry → Option Entry
or_last (some first) b e = some first
or_last none true e = some e
or_last none false e = none

abbrev pub first : Text → List Entry → Option Entry
first k [] = none
first k (e ∷ log) = or_last (first k log) (text_eq e.key k) e

abbrev pub distinct : List Text → Bool
distinct [] = true
distinct (x ∷ xs) = not (has_id x xs) && distinct xs

-- A row counts the statements of its key, has each of their ids once, and is for the rest the first
-- of them.
pub record IsRow (k : Text) (log : List Entry) (row : Row) : Type 0 where
  pub counted : row.deliveries ≡ count k log
  pub some_delivery : 1 ≤ row.deliveries
  pub fits : row.deliveries ≤ max_integer
  pub ids : (id : Text) → has_id id row.hook_ids ≡ recorded k id log
  pub once : distinct row.hook_ids ≡ true
  pub origin : Entry
  pub is_first : first k log ≡ some origin
  pub kept_id : row.ankusa_id ≡ origin.ankusa_id
  pub kept_source : row.source_id ≡ origin.source_id
  pub kept_tenant : row.tenant_id ≡ origin.tenant_id
  pub kept_body : row.body ≡ origin.body
  pub kept_digest : row.body_sha256 ≡ origin.body_sha256
  pub kept_via : row.via ≡ origin.via

abbrev pub IsSummary : Text → List Entry → Option Row → Type 0
IsSummary k log none =
    (count k log ≡ 0) × (first k log ≡ none) × ((id : Text) → recorded k id log ≡ false)
IsSummary k log (some row) = IsRow k log row

-- The table has a row for each key of the statements, and no other.
abbrev pub Represents : Table → List Entry → Type 0
Represents t log = (k : Text) → IsSummary k log (lookup_row k t)
