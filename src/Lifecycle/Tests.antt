-- ===== src/Lifecycle/Tests.antt =====
-- A lifecycle event, with a key that the decoder does not know.
use ankusa.Prelude.{◌≡◌, refl, ok, some, none, [], codes, text_eq}
use ankusa.Json.{null, number, str, obj, Props, end, prop, get, whole, pos}
use ankusa.Runtime.{Runtime, text}
use ankusa.Fixtures.{runtime}
use ankusa.Lifecycle.{
  LifecycleEvent, decode_lifecycle, check_specversion, required_string, optional_string,
  decode_data, decode_revision, decode_sequence,
}
use ankusa.Lifecycle.Laws.{IsEvent, decode_lifecycle_sound}

abbrev raw_from : Props → Props
raw_from rest = prop "specversion" (str (codes "1.0")) (
    prop "id" (str (codes "e1")) (
      prop "source" (str (codes "ankusa")) (
        prop "type" (str (codes "io.ankusa.route.updated"))
          (prop "subject" (str (codes "r1")) (prop "time" (str (codes "now")) rest)))))

abbrev raw_event : Props
raw_event = raw_from (prop "revision" (number (whole (pos 3))) end)

abbrev raw_extended : Props
raw_extended = raw_from (prop "revision" (number (whole (pos 3))) (prop "extra" null end))

abbrev event : LifecycleEvent
event = record {
  id = codes "e1";
  source = codes "ankusa";
  type_name = codes "io.ankusa.route.updated";
  subject = codes "r1";
  time = codes "now";
  datacontenttype = none;
  body = none;
  revision = some 3;
  actor = none;
  instance_name = none;
  sequence = none;
  replayid = none;
  traceparent = none;
  tracestate = none;
}

abbrev lifecycle_runtime : Runtime
lifecycle_runtime = record runtime { parse_json = λ t. some (obj raw_event) }

decode_lifecycle-event : decode_lifecycle lifecycle_runtime (text []) ≡ ok event
unfolding decode_lifecycle get check_specversion text_eq required_string optional_string decode_data
    decode_revision decode_sequence
decode_lifecycle-event = refl

decode_lifecycle_sound_example :
    (raw : Props) × (lifecycle_runtime.parse_json [] ≡ some (obj raw)) × IsEvent raw event
decode_lifecycle_sound_example =
    decode_lifecycle_sound lifecycle_runtime (text []) event decode_lifecycle-event
