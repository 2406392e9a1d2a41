-- ===== src/Tests/ServerExamples.antt =====
-- The theorems about the hub, the wire formats, the headers and the cache's rules, applied.
use studio_bondage_club.Prelude.{
  ◌≡◌, refl, Bool, true, false, Option, none, some, List, [], ◌∷◌, Str, codes, pos, ◌+ℤ◌, ◌||◌, map,
  to_string, ℤ, split, join_by, to_lower, ltb_ℤ, wrap_64, ◌*◌, ◌^◌, length, arith, is_empty, reject,
  str_eq, str_eq_sym, to_upper, if◌then◌else◌, leb,
}
use studio_bondage_club.Connection.{Connection, window, ingest}
use studio_bondage_club.Connection.Laws.{length-window}
use studio_bondage_club.Connection.Once.{IsOnce, Result, ingest-IsOnce, removals}
use studio_bondage_club.Http.{
  HeaderMap, get, set, values, iequals, trim, canonical_header_key, strip_hop_by_hop, is_hop_by_hop,
  header_contains_token,
}
use studio_bondage_club.Http.Laws.{get-set, get-set_other}
use studio_bondage_club.Http.Canonical.{capitalised, canonical_header_key-words}
use studio_bondage_club.Http.Policy.{plus_seconds}
use studio_bondage_club.Http.Stripped.{has_canonical_keys, is_listed, get-strip_hop_by_hop}
use studio_bondage_club.Hub.{Hub, Limits, address_of, on_connection, remove}
use studio_bondage_club.Hub.Accounting.{
  IsBalanced, IsWithin, Returns, on_connection-IsBalanced, remove-IsBalanced,
  on_connection-IsWithin, on_connection-returns, counted,
}
use studio_bondage_club.Tests.JsonExample.{json_example, Value, v_null, v_arr, v_str}
use studio_bondage_club.Wire.{
  Packet, message_packet, encode, parse_packet, encode_payload, decode_payload,
}
use studio_bondage_club.Wire.Event.{encode_event, parse}
use studio_bondage_club.Wire.Event.RoundTrip.{parse-encode_event, event_of}
use studio_bondage_club.Wire.RoundTrip.{parse_packet-encode, decode_payload-encode_payload}

abbrev greeting : Packet
greeting = record { kind = message_packet; content = codes "2[]" }

parse_packet-encode_example : parse_packet (encode greeting) ≡ some greeting
parse_packet-encode_example = parse_packet-encode greeting

abbrev two_packets : List Str
two_packets = codes "2" ∷ codes "40" ∷ []

decode_payload-encode_payload_example :
    decode_payload (encode_payload two_packets) ≡ reject is_empty two_packets
decode_payload-encode_payload_example = decode_payload-encode_payload two_packets refl

abbrev hello : Value
hello = v_arr (v_str (codes "Hi") ∷ v_null ∷ [])

abbrev hello_text : Value → Str
hello_text v = codes "[\"Hi\",null]"

abbrev hello_parsed : Str → Option Value
hello_parsed s = some hello

parse-encode_event_example :
    parse json_example hello_text hello_parsed
      (encode_event json_example hello_text hello_parsed (codes "Hi") v_null)
    ≡ event_of json_example hello_text hello_parsed (codes "Hi") v_null
parse-encode_event_example =
    parse-encode_event json_example hello_text hello_parsed (codes "Hi") v_null
      (codes "\"Hi\",null]") refl refl

abbrev empty_hub : Hub
empty_hub = record { by_sid = []; rooms = λ r. []; ip_connections = λ a. []; ip_by_sid = [] }

abbrev limits : Limits
limits = record { connections = 64; rate = 2 }

empty_hub-IsBalanced : IsBalanced empty_hub
unfolding counted
empty_hub-IsBalanced a h = refl

empty_hub-IsWithin : IsWithin limits empty_hub
empty_hub-IsWithin a = omega arith

new_session : address_of (codes "s1") empty_hub.ip_by_sid ≡ none
unfolding address_of
new_session = refl

on_connection-IsBalanced_example :
    Returns IsBalanced (on_connection limits (codes "s1") (codes "10.0.0.1") 5 empty_hub)
on_connection-IsBalanced_example =
    on_connection-IsBalanced limits (codes "s1") (codes "10.0.0.1") 5 empty_hub new_session
      empty_hub-IsBalanced

-- A hub with one accepted session.
abbrev hub_of_one : Hub
hub_of_one = record {
  by_sid = codes "s1" ∷ [];
  rooms = λ r. [];
  ip_connections = λ a. if str_eq a (codes "10.0.0.1") then 5 ∷ [] else [];
  ip_by_sid = (codes "s1", codes "10.0.0.1") ∷ [];
}

hub_of_one-IsBalanced : IsBalanced hub_of_one
unfolding counted
hub_of_one-IsBalanced a h = ground (arith, str_eq_sym a (codes "10.0.0.1"))

remove-IsBalanced_example : IsBalanced (remove (codes "s1") hub_of_one)
remove-IsBalanced_example = remove-IsBalanced (codes "s1") hub_of_one hub_of_one-IsBalanced

on_connection-IsWithin_example :
    Returns (IsWithin limits) (on_connection limits (codes "s1") (codes "10.0.0.1") 5 empty_hub)
on_connection-IsWithin_example =
    on_connection-IsWithin limits (codes "s1") (codes "10.0.0.1") 5 empty_hub empty_hub-IsWithin

abbrev headers : HeaderMap
headers =
    (codes "Connection", codes "close, x-a")
    ∷ (codes "X-A", codes "1")
    ∷ (codes "Te", codes "t")
    ∷ []

canonical_header_key-words_example :
    canonical_header_key (codes "x-STUDIO-cache")
    ≡ join_by b'-' (map capitalised (split b'-' (codes "x-STUDIO-cache")))
canonical_header_key-words_example = canonical_header_key-words (codes "x-STUDIO-cache")

get-set_example : get (codes "x-a") (set (codes "x-a") (codes "2") headers) ≡ codes "2"
get-set_example = get-set (codes "x-a") (codes "2") headers

other_keys : str_eq (canonical_header_key (codes "te")) (canonical_header_key (codes "x-a")) ≡ false
unfolding canonical_header_key str_eq to_upper
other_keys = refl

get-set_other_example :
    get (codes "x-a") (set (codes "te") (codes "u") headers) ≡ get (codes "x-a") headers
get-set_other_example = get-set_other (codes "x-a") (codes "te") (codes "u") headers other_keys

headers-canonical : has_canonical_keys headers ≡ true
unfolding canonical_header_key str_eq to_upper to_lower
headers-canonical = refl

get-strip_hop_by_hop_example : get (codes "x-a") (strip_hop_by_hop headers) ≡ (
    if is_hop_by_hop (codes "x-a") || is_listed (codes "x-a") headers
    then []
    else get (codes "x-a") headers)
get-strip_hop_by_hop_example = get-strip_hop_by_hop (codes "x-a") headers refl headers-canonical

listed_test : is_listed (codes "x-a") headers ≡ true
unfolding values header_contains_token canonical_header_key str_eq to_upper to_lower split iequals
    trim
listed_test = refl

abbrev lifetimes : List (Str × Str)
lifetimes = (codes "max-age", codes "60") ∷ (codes "S-MaxAge", to_string 120) ∷ []

abbrev no_dates : Str → Option ℤ
no_dates s = none

-- A large delta wraps around, into the past.
max_age_test : ltb_ℤ (plus_seconds (pos (1700000000 * 10 ^ 9)) (pos 9999999999)) (pos 0) ≡ true
unfolding plus_seconds wrap_64 ◌+ℤ◌
max_age_test = refl

abbrev no_dump : Value → Str
no_dump v = codes "[]"

abbrev no_parse : Str → Option Value
no_parse s = none

length-window_example :
    length (window json_example no_dump no_parse 3 5000 (1 ∷ 2 ∷ [])).1 ≡ (if leb 1 3 then 3 else 1)
length-window_example = length-window json_example no_dump no_parse 3 5000 (1 ∷ 2 ∷ [])

-- A session at its start, and a body that ends it.
abbrev started : Connection json_example hello_text hello_parsed
started = record {
  sid = codes "s1";
  outbox = [];
  sio_connected = false;
  closing = false;
  awaiting_pong = false;
  ws_mode = false;
  rooms = [];
  msg_bucket = [];
  calls = [];
}

started-IsOnce : IsOnce json_example hello_text hello_parsed started
unfolding removals
started-IsOnce = refl

ingest-IsOnce_example :
    Result json_example hello_text hello_parsed
      (ingest json_example hello_text hello_parsed 20 5000 (codes "41") started)
ingest-IsOnce_example =
    ingest-IsOnce json_example hello_text hello_parsed 20 5000 (codes "41") started started-IsOnce

on_connection-returns_example :
    (r : Bool × Hub) × (on_connection limits (codes "s1") (codes "10.0.0.1") 5 empty_hub ≡ some r)
on_connection-returns_example =
    on_connection-returns limits (codes "s1") (codes "10.0.0.1") 5 empty_hub (omega arith)
