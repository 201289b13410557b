-- ===== src/Worker/Fleet/Room.antt =====
-- How many more deliveries the rows of the fleet consumer can count.
use ankusa.Prelude.{
  ℕ, suc, ◌+◌, ◌≤◌, Bool, true, false, ◌≡◌, refl, subst, arith, some, [], ◌∷◌, Text, All, text_eq,
  ltb,
}
use ankusa.Worker.Fleet.{Entry, Row, Table, max_integer, add_id, new_row, bump, upsert_at, upsert}

-- Each row can count `n` more deliveries, and so can a new one.
abbrev pub CanCount : ℕ → Text × Row → Type 0
CanCount n r = r.1.deliveries + n ≤ max_integer

pub record HasRoom (n : ℕ) (t : Table) : Type 0 where
  pub new : n ≤ max_integer
  pub rows : All (CanCount n) t

pub HasRoom-same : (a b : ℕ) (t : Table) → a ≡ b → HasRoom a t → HasRoom b t
HasRoom-same a b t e = subst (λ n. HasRoom n t) e

pub fewer : (n : ℕ) (t : Table) → All (CanCount (suc n)) t → All (CanCount n) t
fewer n [] h = tt
fewer n (r ∷ t) (p, h) = (omega (arith, p), fewer n t h)

at_row :
    (n : ℕ) (e : Entry) (key : Text) (row : Row) (t : Table)
    → row.deliveries + suc n ≤ max_integer
    → All (CanCount (suc n)) t
    → (is_key : Bool) → ((u : Table) × (upsert e t ≡ some u) × All (CanCount n) u)
    → (u : Table) × (upsert_at e key row t (upsert e t) is_key ≡ some u) × All (CanCount n) u
unfolding bump
at_row n e key row t p h true rest =
    let low : ltb row.deliveries max_integer ≡ true = ground (arith, p) in
    (
      (
        key,
        record row { deliveries = row.deliveries + 1; hook_ids = add_id e.ankusa_id row.hook_ids },
      )
          ∷ t,
      rw low refl,
      (omega (arith, p), fewer n t h),
    )
at_row n e key row t p h false (u, taken, room) =
    ((key, row) ∷ u, rw taken refl, (omega (arith, p), room))

pub upsert-HasRoom :
    (n : ℕ) (e : Entry) (t : Table)
    → HasRoom (suc n) t
    → (u : Table) × (upsert e t ≡ some u) × All (CanCount n) u
unfolding upsert
upsert-HasRoom n e [] h = ((e.key, new_row e) ∷ [], refl, (omega (arith, h.new), tt))
upsert-HasRoom n e ((key, row) ∷ t) h =
    at_row n e key row t h.rows.0 h.rows.1 (text_eq key e.key)
      (upsert-HasRoom n e t (record { new = h.new; rows = h.rows.1 }))
