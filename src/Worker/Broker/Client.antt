-- ===== src/Worker/Broker/Client.antt =====
-- What a publisher knows of a broker with its consumers, whichever it is.
use ankusa.Prelude.{Run, stop, go, Run-keeps, Run-append, ◌+◌, ◌≤◌, ◌≡◌, arith, Bytes}
use ankusa.Worker.Broker.{Bag, Change, arrives, settles, stays, Broker}

-- Each message that was published waits or was settled, and is counted once.
abbrev pub IsBalanced : Bag → Type 0
IsBalanced a = (x : Bytes) → a.published x ≡ a.pending x + a.settled x

Change-IsBalanced : (a b : Bag) → Change a b → IsBalanced a → IsBalanced b
Change-IsBalanced a b (arrives m p q r) h = λ x. omega (arith, h x, p x, q x, r x)
Change-IsBalanced a b (settles m p q r) h = λ x. omega (arith, h x, p x, q x, r x)
Change-IsBalanced a b (stays p q r) h = λ x. omega (arith, h x, p x, q x, r x)

Change-grows : (a b : Bag) → Change a b → (x : Bytes) → a.settled x ≤ b.settled x
Change-grows a b (arrives m p q r) x = omega (arith, r x)
Change-grows a b (settles m p q r) x = omega (arith, r x)
Change-grows a b (stays p q r) x = omega (arith, r x)

module _ (b : Broker) where
  open b use {State, Step, start, bag, Serving, serves, IsServed, empty, refines, drains}

  pub balanced : (s : State) → Run Step start s → IsBalanced (bag s)
  balanced s run =
      Run-keeps Step (λ t. IsBalanced (bag t))
        (λ u v step h. Change-IsBalanced (bag u) (bag v) (refines u v step) h) start s run
        (λ x. let (p, q, r) = empty x in omega (arith, p, q, r))

  -- What is settled stays settled.
  pub settled_grows :
      (s t : State) → Run Step s t → (x : Bytes) → (bag s).settled x ≤ (bag t).settled x
  settled_grows s t stop x = omega arith
  settled_grows s t (go {b = u} step rest) x =
      omega (arith, Change-grows (bag s) (bag u) (refines s u step) x, settled_grows u t rest x)

  pub served_run : (s t : State) → Run Serving s t → Run Step s t
  served_run s t stop = stop
  served_run s t (go {b = u} step rest) = go (serves s u step) (served_run u t rest)

  pub all_settled :
      (s : State)
      → Run Step start s
      → IsServed s
      → (t : State) × Run Serving s t
        × ((x : Bytes) → (bag t).published x ≡ (bag s).published x)
        × ((x : Bytes) → (bag t).settled x ≡ (bag s).published x)
  all_settled s reached served =
      let (t, run, none_left, same) = drains s reached served in
      (
        t,
        run,
        same,
        λ x. omega (
          arith,
          balanced t (Run-append Step start s t reached (served_run s t run)) x,
          none_left x,
          same x,
        ),
      )
