-- ===== src/Wire/Event/RoundTrip.antt =====
-- An event that is encoded (sio_protocol.cpp) is parsed again.
use studio_bondage_club.Prelude.{
  ◌≡◌, refl, sym, ap, ◌∙◌, is_digit, true, Option, some, none, List, [], ◌∷◌, Str,
}
use studio_bondage_club.Json.{JsonLib}
use studio_bondage_club.Wire.Event

module _ (J : JsonLib) (dump : J.Json → Str) (parse_json : Str → Option J.Json) where
  -- The event itself, as a parsed message.
  abbrev pub event_of : Str → J.Json → Option (Option (Event.Message J dump parse_json))
  event_of name content = some (
      some (record {
        is_event = true;
        ack_id = none;
        event = name;
        content = content;
        args = J.of_arr (J.of_str name ∷ content ∷ []);
      }))

  name_of-of_str :
      (name : Str) (xs : List J.Json) → Event.name_of J dump parse_json (J.of_str name ∷ xs) ≡ name
  unfolding Event.name_of
  name_of-of_str name xs = rw (J.str?-of_str name, Event.name_of) refl

  parse_array :
      (name : Str) (content : J.Json) (s : Str)
      → parse_json (b'[' ∷ s) ≡ some (J.of_arr (J.of_str name ∷ content ∷ []))
      → Event.parse J dump parse_json (b'2' ∷ b'[' ∷ s) ≡ event_of name content
  unfolding Event.parse Event.skip_namespace Event.digits Event.ack_of is_digit
  parse_array name content s h = rw h (
      ap (λ o. some (Event.with_array J dump parse_json true none (J.of_arr xs) o))
        (J.arr?-of_arr xs)
      ∙ ap
          (λ n. some (
            some (record {
              is_event = true;
              ack_id = none;
              event = n;
              content = content;
              args = J.of_arr xs;
            })))
          (name_of-of_str name (content ∷ [])))
    where
      xs : List J.Json
      xs = J.of_str name ∷ content ∷ []

  parse_bracket :
      (name : Str) (content : J.Json) (s t : Str)
      → t ≡ b'[' ∷ s
      → parse_json t ≡ some (J.of_arr (J.of_str name ∷ content ∷ []))
      → Event.parse J dump parse_json (b'2' ∷ t) ≡ event_of name content
  parse_bracket name content s t e h =
      ap (λ u. Event.parse J dump parse_json (b'2' ∷ u)) e
      ∙ parse_array name content s (ap parse_json (sym e) ∙ h)

  -- Where the text of the array of an event's name and data starts with a bracket, and is parsed as
  -- that array, the packet of the event is parsed as the event, with its name and its data, and no
  -- acknowledgement.
  pub parse-encode_event :
      (name : Str) (content : J.Json) (s : Str)
      → dump (J.of_arr (J.of_str name ∷ content ∷ [])) ≡ b'[' ∷ s
      → parse_json (dump (J.of_arr (J.of_str name ∷ content ∷ [])))
        ≡ some (J.of_arr (J.of_str name ∷ content ∷ []))
      → Event.parse J dump parse_json (Event.encode_event J dump parse_json name content)
        ≡ event_of name content
  unfolding Event.encode_event
  parse-encode_event name content s bracket again = parse_bracket name content s _ bracket again
