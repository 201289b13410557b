-- ===== src/ControlPanel/Tests.antt =====
-- A click with "c" down on the page of two reloaders.
use ankusa.Prelude.{Text, ◌≡◌, refl, true, none, some, [], ◌∷◌, codes, text_eq}
use ankusa.ControlPanel.{
  live_reload_attached, keydown, click, page_loading_stop, prevent_default,
  stop_immediate_propagation, open_editor_at_caller, clicked, on_event, after_events, start,
  live_socket, loaded,
}
use ankusa.ControlPanel.Laws.{down, opened, click_opens}

click_with_c :
    (on_event
      (after_events
        (start true)
        (live_reload_attached 1 ∷ live_reload_attached 2 ∷ keydown (codes "c") ∷ []))
      (click 7)).1
    ≡ prevent_default ∷ stop_immediate_propagation ∷ open_editor_at_caller 1 7 ∷ []
unfolding on_event clicked text_eq
click_with_c = refl

-- Without the token nothing is loaded.
loaded_bare : loaded (live_socket {H = Text} none []) ≡ []
loaded_bare = refl

click_opens_example :
    (on_event
      (after_events
        (start true)
        (live_reload_attached 1 ∷ keydown (codes "c") ∷ page_loading_stop ∷ []))
      (click 7)).1
    ≡ opened (some (codes "c")) (some 1) 7
click_opens_example =
    click_opens (live_reload_attached 1 ∷ []) (page_loading_stop ∷ []) (some (codes "c"))
      (keydown (codes "c")) 7 (down (codes "c")) (tt, tt)
