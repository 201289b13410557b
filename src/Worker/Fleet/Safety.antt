-- ===== src/Worker/Fleet/Safety.antt =====
-- What holds of the fleet consumer in every reachable state.
use ankusa.Prelude.{
  times, times-append, times_middle, length_middle, All_middle, All_map, ◌+◌, ◌≤◌, true, ◌≡◌, refl,
  ap, ◌∙◌, subst, arith, Option, none, some, List, [], ◌∷◌, ◌++◌, Bytes, All, length, text_eq_refl,
  ok,
}
use ankusa.Http.{Gateway}
use ankusa.Worker.Rabbit.{rejected, settlement_of}
use ankusa.Worker.Fleet.{World, Entry, Row, Table, has_id, read}
use ankusa.Worker.Fleet.Table.{lookup_row, recorded, IsSummary, Represents}
use ankusa.Worker.Fleet.Table.Laws.{upsert-Represents}
use ankusa.Worker.Fleet.System.{
  prefetch, Fleet, at, Step, publish, deliver, store, store_unanswered, acknowledge, reject,
  requeue, restart, Reach, here, later,
}

-- Each published message is in one place.
abbrev pub IsConserved : Fleet → Type 0
IsConserved f =
    (m : Bytes)
    → times m f.published
      ≡ times m f.queue + times m f.flight + times m f.stored + times m f.acked + times m f.dead

module _ (w : World) where
  -- A statement of the message was taken.
  abbrev IsLogged : List Entry → Bytes → Type 0
  IsLogged log m =
      (g : Gateway Bytes) × (e : Entry) × (read (at w g) m ≡ ok e)
      × (recorded e.key e.ankusa_id log ≡ true)

  -- The row of the message's key has the id of its hook.
  abbrev pub IsKept : Table → Bytes → Type 0
  IsKept t m =
      (g : Gateway Bytes) × (e : Entry) × (row : Row) × (read (at w g) m ≡ ok e)
      × (lookup_row e.key t ≡ some row)
      × (has_id e.ankusa_id row.hook_ids ≡ true)

  abbrev pub IsRefused : Bytes → Type 0
  IsRefused m = (g : Gateway Bytes) × (settlement_of (read (at w g) m) ≡ rejected)

  record Inv (f : Fleet) : Type 0 where
    conserved : IsConserved f
    within : length f.flight + length f.stored ≤ prefetch
    represents : Represents f.table f.log
    stored : All (IsLogged f.log) f.stored
    acked : All (IsLogged f.log) f.acked
    dead : All IsRefused f.dead

  IsLogged-more : (e : Entry) (log : List Entry) (m : Bytes) → IsLogged log m → IsLogged (e ∷ log) m
  IsLogged-more e log m (g, x, got, h) = (g, x, got, ground arith)

  Step-Inv : {f g : Fleet} → Step w f g → Inv f → Inv g
  Step-Inv {f} (publish m) i = record {
    conserved = λ x. omega (arith, i.conserved x, times-append x f.queue (m ∷ []));
    within = i.within;
    represents = i.represents;
    stored = i.stored;
    acked = i.acked;
    dead = i.dead;
  }
  Step-Inv {f} (deliver m rest e few) i = record {
    conserved = λ x. omega (arith, i.conserved x, ap (times x) e);
    within = omega (arith, few);
    represents = i.represents;
    stored = i.stored;
    acked = i.acked;
    dead = i.dead;
  }
  Step-Inv {f} (store m xs ys g e t from got up) i = record {
    conserved = λ x. omega (arith, i.conserved x, ap (times x) from, times_middle x m xs ys);
    within = omega (arith, i.within, ap length from, length_middle m xs ys);
    represents = upsert-Represents e f.table t f.log i.represents up;
    stored = (
      (g, e, got, rw (text_eq_refl e.key, text_eq_refl e.ankusa_id)),
      All_map (IsLogged f.log) (IsLogged (e ∷ f.log)) (IsLogged-more e f.log) f.stored i.stored,
    );
    acked = All_map (IsLogged f.log) (IsLogged (e ∷ f.log)) (IsLogged-more e f.log) f.acked i.acked;
    dead = i.dead;
  }
  Step-Inv {f} (store_unanswered m xs ys g e t from got up) i = record {
    conserved = λ x. omega (
      arith,
      i.conserved x,
      ap (times x) from,
      times_middle x m xs ys,
      times-append x f.queue (m ∷ []),
    );
    within = omega (arith, i.within, ap length from, length_middle m xs ys);
    represents = upsert-Represents e f.table t f.log i.represents up;
    stored =
        All_map (IsLogged f.log) (IsLogged (e ∷ f.log)) (IsLogged-more e f.log) f.stored i.stored;
    acked = All_map (IsLogged f.log) (IsLogged (e ∷ f.log)) (IsLogged-more e f.log) f.acked i.acked;
    dead = i.dead;
  }
  Step-Inv {f} (acknowledge m xs ys from) i =
      let (logged, rest) =
        All_middle (IsLogged f.log) m xs ys (subst (All (IsLogged f.log)) from i.stored) in
      record {
        conserved = λ x. omega (arith, i.conserved x, ap (times x) from, times_middle x m xs ys);
        within = omega (arith, i.within, ap length from, length_middle m xs ys);
        represents = i.represents;
        stored = rest;
        acked = (logged, i.acked);
        dead = i.dead;
      }
  Step-Inv {f} (reject m xs ys g from refused) i = record {
    conserved = λ x. omega (arith, i.conserved x, ap (times x) from, times_middle x m xs ys);
    within = omega (arith, i.within, ap length from, length_middle m xs ys);
    represents = i.represents;
    stored = i.stored;
    acked = i.acked;
    dead = ((g, refused), i.dead);
  }
  Step-Inv {f} (requeue m xs ys g from again) i = record {
    conserved = λ x. omega (
      arith,
      i.conserved x,
      ap (times x) from,
      times_middle x m xs ys,
      times-append x f.queue (m ∷ []),
    );
    within = omega (arith, i.within, ap length from, length_middle m xs ys);
    represents = i.represents;
    stored = i.stored;
    acked = i.acked;
    dead = i.dead;
  }
  Step-Inv {f} restart i = record {
    conserved = λ x. omega (
      arith,
      i.conserved x,
      times-append x (f.flight ++ f.stored) f.queue,
      times-append x f.flight f.stored,
    );
    within = omega arith;
    represents = i.represents;
    stored = tt {0};
    acked = i.acked;
    dead = i.dead;
  }

  Reach-Inv : {f : Fleet} → Reach w f → Inv f
  Reach-Inv here = record {
    conserved = λ x. refl;
    within = omega arith;
    represents = λ k. (refl, refl, λ id. refl);
    stored = tt {0};
    acked = tt {0};
    dead = tt {0};
  }
  Reach-Inv (later r s) = Step-Inv s (Reach-Inv r)

  IsKept-of_row :
      (t : Table) (log : List Entry) (m : Bytes) (o : Option Row) (g : Gateway Bytes) (e : Entry)
      → read (at w g) m ≡ ok e
      → recorded e.key e.ankusa_id log ≡ true
      → lookup_row e.key t ≡ o
      → IsSummary e.key log o
      → IsKept t m
  IsKept-of_row t log m none g e got h at_key (_, _, ids) = absurd (ground (arith, ids e.ankusa_id))
  IsKept-of_row t log m (some row) g e got h at_key r =
      (g, e, row, got, at_key, r.ids e.ankusa_id ∙ h)

  logged-IsKept :
      (t : Table) (log : List Entry) → Represents t log → (m : Bytes) → IsLogged log m → IsKept t m
  logged-IsKept t log good m (g, e, got, h) =
      IsKept-of_row t log m (lookup_row e.key t) g e got h refl (good e.key)

  -- In every reachable state, whatever the order in which the handlers finish and however often the
  -- consumer was killed: each published message is in the queue, in flight, written, acknowledged or
  -- rejected, and as often as it was published; at most 32 deliveries are not acknowledged; the
  -- row of each acknowledged message's key has the id of its hook; and only what the worker refuses
  -- for good is rejected.
  pub Reach-IsSafe :
      (f : Fleet)
      → Reach w f
      → IsConserved f
        × (length f.flight + length f.stored ≤ prefetch)
        × All (IsKept f.table) f.acked
        × All IsRefused f.dead
  Reach-IsSafe f r =
      let i = Reach-Inv r in
      (
        i.conserved,
        i.within,
        All_map (IsLogged f.log) (IsKept f.table) (logged-IsKept f.table f.log i.represents) f.acked
            i.acked,
        i.dead,
      )

  -- In every reachable state the table is the summary of the statements that the database took: it has
  -- a row for each of their keys and no other, with the number of the statements of the key, each of
  -- their ids once, and else the values of the first of them.
  pub Reach-Represents : (f : Fleet) → Reach w f → Represents f.table f.log
  Reach-Represents f r = (Reach-Inv r).represents
