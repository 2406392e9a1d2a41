-- ===== src/Wire.antt =====
-- The wire formats of the game server: Engine.IO packets and payloads
-- (server/gameserver/engineio/eio_protocol.cpp).
pub mod Event
pub mod RoundTrip
use studio_bondage_club.Prelude.{
  ℕ, ◌==◌, if◌then◌else◌, Bool, true, false, Option, none, some, List, [], ◌∷◌, Str, reject,
  is_empty, split, join_by,
}

pub data PacketType : Type 0 where
  open_packet close_packet ping_packet pong_packet message_packet upgrade_packet noop_packet :
      PacketType

-- The values of the enumerators.
unfoldable pub type_digit : PacketType → ℕ
type_digit open_packet = b'0'
type_digit close_packet = b'1'
type_digit ping_packet = b'2'
type_digit pong_packet = b'3'
type_digit message_packet = b'4'
type_digit upgrade_packet = b'5'
type_digit noop_packet = b'6'

-- `is_packet_type` and the cast.
unfoldable pub packet_type : ℕ → Option PacketType
packet_type c =
    if c == b'0'
    then some open_packet
    else if c == b'1'
    then some close_packet
    else if c == b'2'
    then some ping_packet
    else if c == b'3'
    then some pong_packet
    else if c == b'4'
    then some message_packet
    else if c == b'5'
    then some upgrade_packet
    else if c == b'6'
    then some noop_packet
    else none

pub record Packet : Type 0 where
  pub kind : PacketType
  pub content : Str

unfoldable pub encode : Packet → Str
encode p = type_digit p.kind ∷ p.content

unfoldable pub message : Str → Str
message payload = type_digit message_packet ∷ payload

of_type : Str → Option PacketType → Option Packet
of_type s none = none
of_type s (some t) = some (record { kind = t; content = s })

unfoldable pub parse_packet : Str → Option Packet
unfolding of_type
parse_packet [] = none
parse_packet (c ∷ s) = of_type s (packet_type c)

abbrev pub record_separator : ℕ
record_separator = 30

unfoldable pub encode_payload : List Str → Str
encode_payload packets = join_by record_separator packets

unfoldable pub decode_payload : Str → List Str
decode_payload body = reject is_empty (split record_separator body)
