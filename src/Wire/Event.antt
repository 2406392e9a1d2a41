-- ===== src/Wire/Event.antt =====
-- Socket.IO packets (server/gameserver/socketio/sio_protocol.cpp). The text of a JSON value and its
-- parser are parameters; the outer `none` of a result is an exception, which `std::stoi` throws.
pub mod RoundTrip
use studio_bondage_club.Prelude.{
  ℕ, suc, ◌+◌, ◌-◌, ◌*◌, ◌^◌, Bool, true, false, not, ◌&&◌, ◌||◌, Option, none, some, List, [], ◌∷◌,
  Str, codes, leb, ◌==◌, if◌then◌else◌, is_digit, is_empty, cut,
}
use studio_bondage_club.Json.{JsonLib}

unfoldable pub digits_value : ℕ → Str → ℕ
digits_value acc [] = acc
digits_value acc (c ∷ s) = digits_value (acc * 10 + (c - b'0')) s

-- The run of digits at the front, and the rest.
unfoldable pub digits : Str → Str × Str
digits [] = ([], [])
digits (c ∷ s) = let rest = digits s in if is_digit c then (c ∷ rest.0, rest.1) else ([], c ∷ s)

-- The namespace, up to the first comma, is discarded.
unfoldable pub skip_namespace : Str → Str
skip_namespace [] = []
skip_namespace (c ∷ s) =
    if c == b'/' then elim (cut b',' (c ∷ s)) [ none ↦ [] | some r ↦ r.1 ] else c ∷ s

-- `std::stoi` of a run of digits.
unfoldable pub ack_of : Str → Option (Option ℕ)
ack_of [] = some none
ack_of (c ∷ s) =
    if leb (digits_value 0 (c ∷ s)) (2 ^ 31 - 1) then some (some (digits_value 0 (c ∷ s))) else none

module _ (J : JsonLib) (dump : J.Json → Str) (parse_json : Str → Option J.Json) where
  open J use {Json, null, of_str, of_arr, of_obj, str?, arr?}

  pub record Message : Type 0 where
    pub is_event : Bool
    pub ack_id : Option ℕ
    pub event : Str
    pub content : Json
    pub args : Json

  unfoldable pub connect_packet : Str → Str
  connect_packet sid = b'0' ∷ dump (of_obj (("sid", of_str sid) ∷ []))

  unfoldable pub encode_event : Str → Json → Str
  encode_event name content = b'2' ∷ dump (of_arr (of_str name ∷ content ∷ []))

  name_of : List Json → Str
  name_of [] = []
  name_of (x ∷ xs) = elim (str? x) [ none ↦ [] | some s ↦ s ]

  second_or_null : List Json → Json
  second_or_null [] = null
  second_or_null (x ∷ []) = null
  second_or_null (x ∷ y ∷ xs) = y

  with_array : Bool → Option ℕ → Json → Option (List Json) → Option Message
  unfolding name_of second_or_null
  with_array is_event ack args none = none
  with_array true ack args (some xs) = some (record {
    is_event = true;
    ack_id = ack;
    event = name_of xs;
    content = second_or_null xs;
    args = args;
  })
  with_array false ack args (some xs) =
      some (record { is_event = false; ack_id = ack; event = []; content = null; args = args })

  parsed : Bool → Option ℕ → Option Json → Option Message
  unfolding with_array
  parsed is_event ack none = none
  parsed is_event ack (some args) = with_array is_event ack args (arr? args)

  body : Bool → Option ℕ → Str → Option Message
  unfolding parsed
  body is_event ack [] =
      some
        (record { is_event = is_event; ack_id = ack; event = []; content = null; args = of_arr [] })
  body is_event ack (c ∷ s) = parsed is_event ack (parse_json (c ∷ s))

  with_ack : Bool → Str → Option (Option ℕ) → Option (Option Message)
  unfolding body
  with_ack is_event text none = none
  with_ack is_event text (some ack) = some (body is_event ack text)

  unfoldable pub parse : Str → Option (Option Message)
  unfolding with_ack
  parse [] = some none
  parse (c ∷ s) =
      let d = digits (skip_namespace s) in
      if c == b'2' || c == b'3' then with_ack (c == b'2') d.1 (ack_of d.0) else some none
