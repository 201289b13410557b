-- ===== src/ControlPanel.antt =====
-- examples/jetstream-k8s/control_panel/assets/js/app.js: the socket of the page, its progress bar, and
-- the clicks that open an editor while the panel is developed.
pub mod Laws
mod Tests
use ankusa.Prelude.{
  ℕ, Bool, true, false, Option, none, some, List, [], ◌∷◌, ◌++◌, String, Text, codes, text_eq,
  if◌then◌else◌,
}

-- The options of `new LiveSocket("/live", Socket, …)`; the hooks are those of the generated module.
pub record Socket {ℓ} (H : Type ℓ) : Type ℓ where
  pub endpoint : Text
  pub long_poll_fallback_ms : ℕ
  pub csrf_token : Option Text
  pub hooks : H

-- The first `meta` element that the page has for the token: its `content`, where it has one. With no such
-- element reading the attribute throws.
abbrev pub live_socket {ℓ} :
    {H : Type ℓ} → (meta : Option (Option Text)) → (colocated_hooks : H) → Option (Socket H)
live_socket none colocated_hooks = none
live_socket (some content) colocated_hooks = some (record {
  endpoint = codes "/live";
  long_poll_fallback_ms = 2500;
  csrf_token = content;
  hooks = colocated_hooks;
})

-- What the page does; a reloader and the target of a click are numbered.
pub data Action : Type 0 where
  configure_bar : (bar_color shadow_color : Text) → Action
  show_bar : (delay : ℕ) → Action
  hide_bar connect_socket expose_socket : Action
  enable_server_logs : (reloader : ℕ) → Action
  expose_reloader : (reloader : ℕ) → Action
  prevent_default stop_immediate_propagation : Action
  open_editor_at_caller : (reloader target : ℕ) → Action
  open_editor_at_def : (reloader target : ℕ) → Action

-- What the window hears.
pub data Event : Type 0 where
  page_loading_start page_loading_stop : Event
  live_reload_attached : (reloader : ℕ) → Event
  keydown : (key : Text) → Event
  keyup : Event
  click : (target : ℕ) → Event

-- The listeners of one reloader, with their `keyDown`; `none` is `undefined` or `null`.
pub record Listener : Type 0 where
  pub reloader : ℕ
  pub key_down : Option Text

-- The listeners in the order in which they were added.
pub record Page : Type 0 where
  pub is_development : Bool
  pub listeners : List Listener

-- What the script does when it is loaded, and has its socket.
abbrev pub loaded {ℓ} : {H : Type ℓ} → Option (Socket H) → List Action
loaded none = []
loaded (some socket) =
    configure_bar (codes "#29d") (codes "rgba(0, 0, 0, .3)") ∷ connect_socket ∷ expose_socket ∷ []

abbrev pub is_key : Text → Option Text → Bool
is_key key none = false
is_key key (some k) = text_eq k key

-- The listeners to a click, in their order, until one stops the others.
unfoldable pub clicked : (target : ℕ) → List Listener → List Action
clicked target [] = []
clicked target (l ∷ ls) =
    let rest = clicked target ls in
    if is_key (codes "c") l.key_down
    then prevent_default ∷ stop_immediate_propagation ∷ open_editor_at_caller l.reloader target ∷ []
    else if is_key (codes "d") l.key_down
    then prevent_default ∷ stop_immediate_propagation ∷ open_editor_at_def l.reloader target ∷ []
    else rest

abbrev pub with_key : Option Text → List Listener → List Listener
with_key key [] = []
with_key key (l ∷ ls) = record l { key_down = key } ∷ with_key key ls

-- A reloader that is attached has listeners of its own, if the panel is developed.
abbrev pub attach : (is_development : Bool) → (reloader : ℕ) → Page → Page × List Action
attach false reloader p = (p, [])
attach true reloader p = (
  record p { listeners = p.listeners ++ (record { reloader = reloader; key_down = none } ∷ []) },
  enable_server_logs reloader ∷ expose_reloader reloader ∷ [],
)

unfoldable pub on_event : Page → Event → Page × List Action
unfolding clicked
on_event p page_loading_start = (p, show_bar 300 ∷ [])
on_event p page_loading_stop = (p, hide_bar ∷ [])
on_event p (live_reload_attached reloader) = attach p.is_development reloader p
on_event p (keydown key) = (record p { listeners = with_key (some key) p.listeners }, [])
on_event p keyup = (record p { listeners = with_key none p.listeners }, [])
on_event p (click target) = (p, clicked target p.listeners)

abbrev pub after_events : Page → List Event → Page
after_events p [] = p
after_events p (e ∷ es) = after_events (on_event p e).0 es

abbrev pub start : (is_development : Bool) → Page
start is_development = record { is_development = is_development; listeners = [] }
