-- ===== src/EventRouting/Worker.antt =====
-- examples/event-routing/worker/src/worker.ts: what it prints of a record.
use ankusa.Prelude.{Option, none, some, List, [], ◌∷◌, Text, Bytes, codes, Result, ok, err}
use ankusa.Runtime.{Runtime, bytes}
use ankusa.Message.Errors.{InvalidMessageError}
use ankusa.Message.Decode.{Message, decode_message}

-- The values of the line.
pub record Line : Type 0 where
  pub topic : Text
  pub id : Text
  pub event_type : Text
  pub body : Text

-- `hook.event_type ?? "null"`
abbrev pub or_null_text : Option Text → Text
or_null_text none = codes "null"
or_null_text (some t) = t

abbrev pub body_text : (utf8_text : Bytes → Text) → Option Bytes → Text
body_text utf8_text none = codes "(claim)"
body_text utf8_text (some body) = utf8_text body

abbrev pub line_of : (utf8_text : Bytes → Text) → Text → Message → Line
line_of utf8_text topic hook = record {
  topic = topic;
  id = hook.id;
  event_type = or_null_text hook.event_type;
  body = body_text utf8_text hook.body;
}

abbrev pub print_hook {ℓ} :
    {E : Type ℓ} → (utf8_text : Bytes → Text) → Text → Result E Message → Result E (List Line)
print_hook utf8_text topic (ok hook) = ok (line_of utf8_text topic hook ∷ [])
print_hook utf8_text topic (err e) = err e

-- `eachMessage`: what it prints, or what it throws.
unfoldable pub each_message :
    Runtime
    → (utf8_text : Bytes → Text) → Text
    → Option Bytes
    → Result InvalidMessageError (List Line)
each_message rt utf8_text topic none = ok []
each_message rt utf8_text topic (some value) =
    print_hook utf8_text topic (decode_message rt (bytes value))
