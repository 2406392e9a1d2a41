-- ===== src/Wire/RoundTrip.antt =====
-- What is encoded for the wire (eio_protocol.cpp) is decoded again.
use studio_bondage_club.Prelude.{
  ◌≡◌, refl, ap, false, some, List, [], ◌∷◌, Str, any, reject, is_empty, split-join_by, split,
  join_by, ◌==◌,
}
use studio_bondage_club.Wire
use studio_bondage_club.Wire.{
  Packet, PacketType, open_packet, close_packet, ping_packet, pong_packet, message_packet,
  upgrade_packet, noop_packet, record_separator, encode, parse_packet, encode_payload,
  decode_payload,
}

packet_type-type_digit : (t : PacketType) → Wire.packet_type (Wire.type_digit t) ≡ some t
unfolding Wire.packet_type Wire.type_digit
packet_type-type_digit open_packet = refl
packet_type-type_digit close_packet = refl
packet_type-type_digit ping_packet = refl
packet_type-type_digit pong_packet = refl
packet_type-type_digit message_packet = refl
packet_type-type_digit upgrade_packet = refl
packet_type-type_digit noop_packet = refl

-- A packet that is encoded parses as itself.
pub parse_packet-encode : (p : Packet) → parse_packet (encode p) ≡ some p
unfolding parse_packet encode
parse_packet-encode p = ap (Wire.of_type p.content) (packet_type-type_digit p.kind)

-- Packets in none of which the record separator occurs, encoded into one payload, are decoded as they
-- were, but for the empty ones, which are left out.
pub decode_payload-encode_payload :
    (packets : List Str)
    → any (any (λ c. c == record_separator)) packets ≡ false
    → decode_payload (encode_payload packets) ≡ reject is_empty packets
unfolding decode_payload encode_payload split join_by
decode_payload-encode_payload [] h = refl
decode_payload-encode_payload (p ∷ ps) h =
    ap (reject is_empty) (split-join_by record_separator p ps h)
