-- ===== src/Lifecycle/Laws.antt =====
-- What a decoded lifecycle event is, and which keys it is read from.
use ankusa.Prelude.{
  ℕ, ◌≤◌, String, ◌≡◌, ◌≢◌, ◌⊎◌, refl, true, Option, none, some, List, [], ◌∷◌, All, Text, codes,
  all, text_eq_sound, arith, ok, err, bind-eq-ok, ok-injective, Bool, if◌then◌else◌, subst, ap,
}
use ankusa.Json.{pos, whole, Json, null, number, str, obj, Props, get}
use ankusa.Runtime.{Runtime, Input, input_text}
use ankusa.Message.Errors.{invalid_at}
use ankusa.ClaimCheck.Ref.{is_digit}
use ankusa.Lifecycle.{
  LifecycleEvent, required_string, optional_string, check_specversion, decode_data, decode_revision,
  decode_sequence, decode_event, decode_parsed, decode_lifecycle,
}

-- The keys that the decoder reads.
abbrev pub event_keys : List String
event_keys =
    "specversion" ∷ "id" ∷ "source" ∷ "type" ∷ "subject" ∷ "time" ∷ "datacontenttype" ∷ "data"
    ∷ "revision" ∷ "actor" ∷ "instance" ∷ "sequence" ∷ "replayid" ∷ "traceparent" ∷ "tracestate"
    ∷ []

-- Objects that agree on the keys of an event are decoded alike: every other key is ignored.
decode_event_ignores :
    (raw other : Props)
    → All (λ key. get key raw ≡ get key other) event_keys
    → decode_event raw ≡ decode_event other
unfolding decode_event
decode_event_ignores raw other
      (a, (b, (c, (d, (e, (f, (g, (h, (i, (j, (k, (l, (m, (n, (o, _))))))))))))))) =
    rw (a, b, c, d, e, f, g, h, i, j, k, l, m, n, o)

-- An optional text is of the object, if it is there.
abbrev pub IsOptional : Props → String → Option Text → Type 0
IsOptional raw key none = (get key raw ≡ none) ⊎ (get key raw ≡ some null)
IsOptional raw key (some t) = get key raw ≡ some (str t)

-- An event of the parsed object `raw`.
pub record IsEvent (raw : Props) (e : LifecycleEvent) : Type 0 where
  pub version : get "specversion" raw ≡ some (str (codes "1.0"))
  pub id : (get "id" raw ≡ some (str e.id)) × (e.id ≢ [])
  pub source : (get "source" raw ≡ some (str e.source)) × (e.source ≢ [])
  pub type_name : (get "type" raw ≡ some (str e.type_name)) × (e.type_name ≢ [])
  pub subject : (get "subject" raw ≡ some (str e.subject)) × (e.subject ≢ [])
  pub time : (get "time" raw ≡ some (str e.time)) × (e.time ≢ [])
  pub content : IsOptional raw "datacontenttype" e.datacontenttype
  pub body : (ps : Props) → e.body ≡ some ps → get "data" raw ≡ some (obj ps)
  pub revision :
      (n : ℕ) → e.revision ≡ some n → (get "revision" raw ≡ some (number (whole (pos n)))) × (1 ≤ n)
  pub actor : IsOptional raw "actor" e.actor
  pub instance_name : IsOptional raw "instance" e.instance_name
  pub sequence :
      (t : Text)
      → e.sequence ≡ some t
      → (get "sequence" raw ≡ some (str t)) × (t ≢ []) × (all is_digit t ≡ true)
  pub replayid : IsOptional raw "replayid" e.replayid
  pub traceparent : IsOptional raw "traceparent" e.traceparent
  pub tracestate : IsOptional raw "tracestate" e.tracestate

required_string_sound :
    (raw : Props) (key : String) (t : Text)
    → required_string raw key ≡ ok t
    → (get key raw ≡ some (str t)) × (t ≢ [])
unfolding required_string
required_string_sound raw key t h = ground arith

optional_string_sound :
    (raw : Props) (key : String) (o : Option Text)
    → optional_string raw key ≡ ok o
    → IsOptional raw key o
unfolding optional_string
optional_string_sound raw key none h = ground arith
optional_string_sound raw key (some t) h = ground arith

check_specversion_sound :
    (o : Option Json) → check_specversion o ≡ ok tt → o ≡ some (str (codes "1.0"))
unfolding check_specversion
check_specversion_sound (some (str t)) h =
    ap (λ x. some (str x)) (text_eq_sound t (codes "1.0") (ground arith))
check_specversion_sound none h = absurd (ground arith)
check_specversion_sound (some _) h = absurd (ground arith)

decode_data_sound :
    (o : Option Json) (d : Option Props) (ps : Props)
    → decode_data o ≡ ok d
    → d ≡ some ps
    → o ≡ some (obj ps)
unfolding decode_data
decode_data_sound o d ps h e = ground arith

decode_revision_sound :
    (o : Option Json) (r : Option ℕ) (n : ℕ)
    → decode_revision o ≡ ok r
    → r ≡ some n
    → (o ≡ some (number (whole (pos n)))) × (1 ≤ n)
unfolding decode_revision
decode_revision_sound o r n h e = ground arith

accepted :
    (b : Bool) (u t : Text) (s : Option Text)
    → (if b then ok (some u) else err (invalid_at "sequence")) ≡ ok s
    → s ≡ some t
    → (b ≡ true) × (u ≡ t)
accepted b u t s h e = ground arith

decode_sequence_sound :
    (o : Option Json) (s : Option Text) (t : Text)
    → decode_sequence o ≡ ok s
    → s ≡ some t
    → (o ≡ some (str t)) × (t ≢ []) × (all is_digit t ≡ true)
unfolding decode_sequence
decode_sequence_sound (some (str [])) s t h e = absurd (ground arith)
decode_sequence_sound (some (str (c ∷ u))) s t h e =
    let (digits, same) = accepted (all is_digit (c ∷ u)) (c ∷ u) t s h e in
    (
      ap (λ x. some (str x)) same,
      λ none_left. ground (arith, same, none_left),
      subst (λ x. all is_digit x ≡ true) same digits,
    )
decode_sequence_sound none s t h e = absurd (ground arith)
decode_sequence_sound (some _) s t h e = absurd (ground arith)

decode_event-IsEvent : (raw : Props) (e : LifecycleEvent) → decode_event raw ≡ ok e → IsEvent raw e
unfolding decode_event
decode_event-IsEvent raw e h =
    let (_, hv, h1) = bind-eq-ok (check_specversion (get "specversion" raw)) _ h in
    let (_, hid, h2) = bind-eq-ok (required_string raw "id") _ h1 in
    let (_, hsource, h3) = bind-eq-ok (required_string raw "source") _ h2 in
    let (_, htype, h4) = bind-eq-ok (required_string raw "type") _ h3 in
    let (_, hsubject, h5) = bind-eq-ok (required_string raw "subject") _ h4 in
    let (_, htime, h6) = bind-eq-ok (required_string raw "time") _ h5 in
    let (_, hcontent, h7) = bind-eq-ok (optional_string raw "datacontenttype") _ h6 in
    let (body, hbody, h8) = bind-eq-ok (decode_data (get "data" raw)) _ h7 in
    let (revision, hrevision, h9) = bind-eq-ok (decode_revision (get "revision" raw)) _ h8 in
    let (_, hactor, h10) = bind-eq-ok (optional_string raw "actor") _ h9 in
    let (_, hinstance, h11) = bind-eq-ok (optional_string raw "instance") _ h10 in
    let (sequence, hsequence, h12) = bind-eq-ok (decode_sequence (get "sequence" raw)) _ h11 in
    let (_, hreplay, h13) = bind-eq-ok (optional_string raw "replayid") _ h12 in
    let (_, hparent, h14) = bind-eq-ok (optional_string raw "traceparent") _ h13 in
    let (_, hstate, done) = bind-eq-ok (optional_string raw "tracestate") _ h14 in
    subst (IsEvent raw) (ok-injective _ _ done) (record {
      version = check_specversion_sound (get "specversion" raw) hv;
      id = required_string_sound raw "id" _ hid;
      source = required_string_sound raw "source" _ hsource;
      type_name = required_string_sound raw "type" _ htype;
      subject = required_string_sound raw "subject" _ hsubject;
      time = required_string_sound raw "time" _ htime;
      content = optional_string_sound raw "datacontenttype" _ hcontent;
      body = λ ps k. decode_data_sound (get "data" raw) body ps hbody k;
      revision = λ n k. decode_revision_sound (get "revision" raw) revision n hrevision k;
      actor = optional_string_sound raw "actor" _ hactor;
      instance_name = optional_string_sound raw "instance" _ hinstance;
      sequence = λ t k. decode_sequence_sound (get "sequence" raw) sequence t hsequence k;
      replayid = optional_string_sound raw "replayid" _ hreplay;
      traceparent = optional_string_sound raw "traceparent" _ hparent;
      tracestate = optional_string_sound raw "tracestate" _ hstate;
    })

parsed_sound :
    (parsed : Option Json) (e : LifecycleEvent)
    → decode_parsed parsed ≡ ok e
    → (raw : Props) × (parsed ≡ some (obj raw)) × IsEvent raw e
unfolding decode_parsed
parsed_sound (some (obj raw)) e h = (raw, refl, decode_event-IsEvent raw e h)
parsed_sound none e h = absurd (ground arith)
parsed_sound (some _) e h = absurd (ground arith)

module _ (rt : Runtime) where
  -- Whatever `decodeLifecycle` returns was parsed as an object of version "1.0"; each required text is
  -- there and is not empty, each optional text, if the object has one, is the object's, and the data,
  -- revision and sequence are an object, an integer from 1 and digits of the object, if any.
  pub decode_lifecycle_sound :
      (input : Input) (e : LifecycleEvent)
      → decode_lifecycle rt input ≡ ok e
      → (raw : Props) × (rt.parse_json (input_text rt input) ≡ some (obj raw)) × IsEvent raw e
  unfolding decode_lifecycle
  decode_lifecycle_sound input e h = parsed_sound (rt.parse_json (input_text rt input)) e h
