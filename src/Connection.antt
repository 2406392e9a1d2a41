-- ===== src/Connection.antt =====
-- One session (server/gameserver/socketio/connection.cpp), on its strand: its outbox, its flags, the
-- window of its rate limit and its rooms. What it asks of the hub and of the installed handlers is
-- recorded in order; what a handler posts comes later, as a step of its own. The WebSocket pumps, the
-- timers and the log are not modelled. Times are milliseconds.
pub mod Laws
pub mod Once
use studio_bondage_club.Prelude.{
  ℕ, zero, suc, ◌+◌, ◌-◌, Bool, true, false, not, ◌&&◌, ◌||◌, Option, none, some, List, [], ◌∷◌,
  ◌++◌, Str, codes, leb, ltb, ◌==◌, length, any, reject, map, drop, replicate, if◌then◌else◌,
  str_eq,
}
use studio_bondage_club.Json.{JsonLib}
use studio_bondage_club.Wire.{
  Packet, PacketType, open_packet, close_packet, ping_packet, pong_packet, message_packet,
  upgrade_packet, noop_packet, type_digit, encode, message, parse_packet, encode_payload,
  decode_payload,
}
use studio_bondage_club.Wire.Event.{Message, connect_packet, encode_event, parse}

module _ (J : JsonLib) (dump : J.Json → Str) (parse_json : Str → Option J.Json) where
  open J use {Json, of_str}

  -- Calls of the hub and of the handlers.
  pub data Call : Type 0 where
    connected : Call
    handled : Str → Json → Call
    disconnected : Str → Call
    left_room : Str → Call
    removed : Call

  pub record Connection : Type 0 where
    pub sid : Str
    pub outbox : List Str
    pub sio_connected : Bool
    pub closing : Bool
    pub awaiting_pong : Bool
    pub ws_mode : Bool
    pub rooms : List Str
    pub msg_bucket : List ℕ
    pub calls : List Call

  unfoldable pub push_locked : Str → Connection → Connection
  push_locked packet c = record c { outbox = c.outbox ++ packet ∷ [] }

  -- What `enqueue_eio` posts.
  unfoldable pub enqueue_eio : Str → Connection → Connection
  enqueue_eio packet c = if c.closing then c else push_locked packet c

  unfoldable pub emit : Str → Json → Connection → Connection
  emit event content c = enqueue_eio (message (encode_event J dump parse_json event content)) c

  abbrev pub one : PacketType → Str
  one t = type_digit t ∷ []

  -- One round of `drain_for_poll`; with no body it parks.
  unfoldable pub drain_for_poll : Connection → Option Str × Connection
  drain_for_poll c = if c.ws_mode then (some (one noop_packet), c) else drain c.outbox
    where
      drain : List Str → Option Str × Connection
      drain [] = (if c.closing then some (one close_packet) else none, c)
      drain (p ∷ ps) = (some (encode_payload (p ∷ ps)), record c { outbox = [] })

  unfoldable pub do_disconnect : Str → Connection → Connection
  do_disconnect reason c = if c.closing then c else record c {
    closing = true;
    rooms = [];
    calls = c.calls ++ (disconnected reason ∷ (map left_room c.rooms ++ removed ∷ []));
  }

  unfoldable pub disconnect : Connection → Connection
  disconnect c =
      if c.closing
      then c
      else do_disconnect (codes "server namespace disconnect") (push_locked (message (b'1' ∷ [])) c)

  unfoldable pub note_joined : Str → Connection → Connection
  note_joined room c = record c {
    rooms = if any (str_eq room) c.rooms then c.rooms else c.rooms ++ room ∷ [];
  }

  unfoldable pub note_left : Str → Connection → Connection
  note_left room c = record c { rooms = reject (str_eq room) c.rooms }

  -- The window is cut, or filled up with zeros, to the limit.
  unfoldable pub resized : ℕ → List ℕ → List ℕ
  resized limit bucket = replicate (limit - length bucket) 0 ++ drop (length bucket - limit) bucket

  slide : ℕ → List ℕ → ℕ × List ℕ
  slide now [] = (0, now ∷ [])
  slide now (t ∷ ts) = (t, ts ++ now ∷ [])

  unfoldable pub window : ℕ → ℕ → List ℕ → ℕ × List ℕ
  unfolding slide
  window limit now bucket = slide now (resized (if leb 1 limit then limit else 1) bucket)

  unfoldable pub dispatch_event : ℕ → ℕ → Str → Json → Connection → Connection
  dispatch_event limit now event content c =
      let w = window limit now c.msg_bucket in
      if leb now (w.0 + 1000)
      then do_disconnect (codes "rate limited") (
          push_locked
            (message (
              encode_event J dump parse_json (codes "ForceDisconnect")
                (of_str (codes "ErrorRateLimited"))))
            (record c { msg_bucket = w.1 }))
      else record c { msg_bucket = w.1; calls = c.calls ++ handled event content ∷ [] }

  dispatched : ℕ → ℕ → Option (Option (Message J dump parse_json)) → Connection → Option Connection
  dispatched limit now none c = none
  dispatched limit now (some none) c = some c
  dispatched limit now (some (some msg)) c =
      some (if msg.is_event then dispatch_event limit now msg.event msg.content c else c)

  -- `none` is the exception of `std::stoi`.
  unfoldable pub handle_sio_payload : ℕ → ℕ → Str → Connection → Option Connection
  unfolding dispatched
  handle_sio_payload limit now [] c = some c
  handle_sio_payload limit now (t ∷ s) c =
      if t == b'0'
      then some (
          if c.sio_connected
          then c
          else (let d =
                push_locked (message (connect_packet J dump parse_json c.sid))
                  (record c { sio_connected = true }) in
              record d { calls = d.calls ++ connected ∷ [] }))
      else if t == b'1'
      then some (do_disconnect (codes "client namespace disconnect") c)
      else dispatched limit now (parse J dump parse_json (t ∷ s)) c

  on_kind : ℕ → ℕ → PacketType → Str → Connection → Option Connection
  on_kind limit now ping_packet content c =
      some (push_locked (encode (record { kind = pong_packet; content = content })) c)
  on_kind limit now pong_packet content c = some (record c { awaiting_pong = false })
  on_kind limit now message_packet content c = handle_sio_payload limit now content c
  on_kind limit now close_packet content c = some (do_disconnect (codes "transport close") c)
  on_kind limit now open_packet content c = some c
  on_kind limit now upgrade_packet content c = some c
  on_kind limit now noop_packet content c = some c

  on_packet : ℕ → ℕ → Option Packet → Connection → Option Connection
  unfolding on_kind
  on_packet limit now none c = some c
  on_packet limit now (some p) c = on_kind limit now p.kind p.content c

  -- The loop of `ingest`, which stops once the connection closes.
  ingest_all : ℕ → ℕ → List Str → Connection → Option Connection
  unfolding on_packet
  ingest_all limit now [] c = some c
  ingest_all limit now (p ∷ ps) c = elim (on_packet limit now (parse_packet p) c) [
    | none ↦ none
    | some d ↦ if d.closing then some d else ingest_all limit now ps d
  ]

  unfoldable pub ingest : ℕ → ℕ → Str → Connection → Option Connection
  unfolding ingest_all
  ingest limit now body c =
      if c.closing then some c else ingest_all limit now (decode_payload body) c

  -- The two ends of a round of `heartbeat_loop`: after the interval, and after the timeout.
  unfoldable pub send_ping : Connection → Connection
  send_ping c =
      if c.closing then c else push_locked (one ping_packet) (record c { awaiting_pong = true })

  unfoldable pub check_pong : Connection → Connection
  check_pong c =
      if c.closing then c else if c.awaiting_pong then do_disconnect (codes "ping timeout") c else c
