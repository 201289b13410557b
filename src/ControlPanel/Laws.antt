-- ===== src/ControlPanel/Laws.antt =====
-- When a click on the control panel's page opens an editor, and where.
use ankusa.Prelude.{
  ℕ, true, false, ◌≡◌, refl, sym, ap, ◌∙◌, Option, none, some, List, [], ◌∷◌, ◌++◌, Text, codes,
  All, if◌then◌else◌, append_assoc, append-nil, Bool-cases, inl, inr,
}
use ankusa.ControlPanel.{
  Action, prevent_default, stop_immediate_propagation, open_editor_at_caller, open_editor_at_def,
  Event, page_loading_start, page_loading_stop, live_reload_attached, keydown, keyup, click,
  Listener, Page, is_key, clicked, with_key, on_event, after_events, start,
}

-- The key that is down after a key event.
pub data IsKeyEvent : Option Text → Event → Type 0 where
  down : (key : Text) → IsKeyEvent (some key) (keydown key)
  up : IsKeyEvent none keyup

abbrev pub IsQuiet : Event → Type 0
IsQuiet (keydown key) = ⊥
IsQuiet keyup = ⊥
IsQuiet _ = Unit {0}

abbrev pub first_reloader : List Event → Option ℕ
first_reloader [] = none
first_reloader (live_reload_attached r ∷ es) = some r
first_reloader (_ ∷ es) = first_reloader es

abbrev pub opened : (key : Option Text) → (reloader : Option ℕ) → (target : ℕ) → List Action
opened key none target = []
opened key (some r) target =
    if is_key (codes "c") key
    then prevent_default ∷ stop_immediate_propagation ∷ open_editor_at_caller r target ∷ []
    else if is_key (codes "d") key
    then prevent_default ∷ stop_immediate_propagation ∷ open_editor_at_def r target ∷ []
    else []

-- The reloader that was attached first, or else the given one.
abbrev front_or : List Listener → Option ℕ → Option ℕ
front_or [] o = o
front_or (l ∷ ls) o = some l.reloader

front-with_key :
    (key : Option Text) (ls : List Listener) (o : Option ℕ)
    → front_or (with_key key ls) o ≡ front_or ls o
front-with_key key [] o = refl
front-with_key key (l ∷ ls) o = refl

front_attached :
    (r : ℕ) (ls : List Listener) (o : Option ℕ)
    → front_or (ls ++ (record { reloader = r; key_down = none } ∷ [])) o ≡ front_or ls (some r)
front_attached r [] o = refl
front_attached r (l ∷ ls) o = refl

-- No listener has a key.
abbrev IsIdle : Listener → Type 0
IsIdle l = l.key_down ≡ none

clicked_idle : (t : ℕ) (ls : List Listener) → All IsIdle ls → clicked t ls ≡ []
unfolding clicked
clicked_idle t [] h = refl
clicked_idle t (l ∷ ls) (p, h) = rw (p, clicked_idle t ls h) refl

opened_without :
    (t : ℕ) (key : Option Text) (o : Option ℕ)
    → is_key (codes "c") key ≡ false
    → is_key (codes "d") key ≡ false
    → opened key o t ≡ []
opened_without t key none not_c not_d = refl
opened_without t key (some r) not_c not_d = rw (not_c, not_d) refl

clicked-with_key :
    (t : ℕ) (key : Option Text) (ls fresh : List Listener)
    → All IsIdle fresh
    → clicked t (with_key key ls ++ fresh) ≡ opened key (front_or ls none) t
unfolding clicked
clicked-with_key t key [] fresh h = clicked_idle t fresh h
clicked-with_key t key (l ∷ ls) fresh h = elim (Bool-cases (is_key (codes "c") key)) [
  | inl c ↦ rw c refl
  | inr not_c ↦ elim (Bool-cases (is_key (codes "d") key)) [
    | inl d ↦ rw (not_c, d) refl
    | inr not_d ↦
        rw
          (
            not_c,
            not_d,
            clicked-with_key t key ls fresh h,
            opened_without t key (front_or ls none) not_c not_d,
          )
          refl
  ]
]

-- The page that is developed.
abbrev page : List Listener → Page
page ls = record { is_development = true; listeners = ls }

front_after :
    (es : List Event) (ls : List Listener)
    → (ks : List Listener) × (after_events (page ls) es ≡ page ks)
      × (front_or ks none ≡ front_or ls (first_reloader es))
unfolding on_event
front_after [] ls = (ls, refl, refl)
front_after (page_loading_start ∷ es) ls = front_after es ls
front_after (page_loading_stop ∷ es) ls = front_after es ls
front_after (click t ∷ es) ls = front_after es ls
front_after (keyup ∷ es) ls =
    let (ks, same, first) = front_after es (with_key none ls) in
    (ks, same, first ∙ front-with_key none ls (first_reloader es))
front_after (keydown k ∷ es) ls =
    let (ks, same, first) = front_after es (with_key (some k) ls) in
    (ks, same, first ∙ front-with_key (some k) ls (first_reloader es))
front_after (live_reload_attached r ∷ es) ls =
    let (ks, same, first) =
      front_after es (ls ++ (record { reloader = r; key_down = none } ∷ [])) in
    (ks, same, first ∙ front_attached r ls (first_reloader es))

quiet_after :
    (es : List Event) (ls : List Listener)
    → All IsQuiet es
    → (fresh : List Listener) × (after_events (page ls) es ≡ page (ls ++ fresh)) × All IsIdle fresh
unfolding on_event
quiet_after [] ls h = ([], ap page (sym (append-nil ls)), tt)
quiet_after (page_loading_start ∷ es) ls (p, h) = quiet_after es ls h
quiet_after (page_loading_stop ∷ es) ls (p, h) = quiet_after es ls h
quiet_after (click t ∷ es) ls (p, h) = quiet_after es ls h
quiet_after (keyup ∷ es) ls (p, h) = absurd p
quiet_after (keydown k ∷ es) ls (p, h) = absurd p
quiet_after (live_reload_attached r ∷ es) ls (p, h) =
    let own : Listener = record { reloader = r; key_down = none } in
    let (fresh, same, idle) = quiet_after es (ls ++ (own ∷ [])) h in
    (own ∷ fresh, same ∙ ap page (append_assoc ls (own ∷ []) fresh), (refl, idle))

after_events-append :
    (p : Page) (es fs : List Event)
    → after_events p (es ++ fs) ≡ after_events (after_events p es) fs
after_events-append p [] fs = refl
after_events-append p (e ∷ es) fs = after_events-append (on_event p e).0 es fs

after_key :
    (key : Option Text) (e : Event) (es : List Event) (ls : List Listener)
    → IsKeyEvent key e
    → after_events (page ls) (e ∷ es) ≡ after_events (page (with_key key ls)) es
unfolding on_event
after_key key e es ls (down k) = refl
after_key key e es ls up = refl

-- Whatever the page of a developed panel heard before, let the last event of a key leave one down or
-- none. Then a click opens the editor where the first of the reloaders does that were attached before
-- that event, and is stopped, if the key is "c" or "d", at the caller or at the definition; and nothing
-- is opened or stopped for another key or none, or where no reloader had been attached.
pub click_opens :
    (before after : List Event) (key : Option Text) (e : Event) (target : ℕ)
    → IsKeyEvent key e
    → All IsQuiet after
    → (on_event (after_events (start true) (before ++ (e ∷ after))) (click target)).1
      ≡ opened key (first_reloader before) target
unfolding on_event
click_opens before after key e target last quiet =
    let (ls, same, first) = front_after before [] in
    let (fresh, grown, idle) = quiet_after after (with_key key ls) quiet in
    let heard : after_events (start true) (before ++ (e ∷ after))
        ≡ page (with_key key ls ++ fresh) =
      after_events-append (start true) before (e ∷ after)
      ∙ (ap (λ p. after_events p (e ∷ after)) same ∙ (after_key key e after ls last ∙ grown)) in
    ap (λ (p : Page). clicked target p.listeners) heard
    ∙ (clicked-with_key target key ls fresh idle ∙ ap (λ o. opened key o target) first)

stays_bare : (es : List Event) → after_events (start false) es ≡ start false
unfolding on_event
stays_bare [] = refl
stays_bare (page_loading_start ∷ es) = stays_bare es
stays_bare (page_loading_stop ∷ es) = stays_bare es
stays_bare (live_reload_attached r ∷ es) = stays_bare es
stays_bare (keydown k ∷ es) = stays_bare es
stays_bare (keyup ∷ es) = stays_bare es
stays_bare (click t ∷ es) = stays_bare es

-- The page of a panel that is not developed opens nothing, and stops no click.
pub click_outside :
    (es : List Event) (target : ℕ)
    → (on_event (after_events (start false) es) (click target)).1 ≡ []
unfolding on_event clicked
click_outside es target = ap (λ (p : Page). clicked target p.listeners) (stays_bare es)
