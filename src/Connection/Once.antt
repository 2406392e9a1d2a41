-- ===== src/Connection/Once.antt =====
-- A session (connection.cpp) is removed from the hub once, when it closes.
use studio_bondage_club.Prelude.{
  ℕ, suc, ◌+◌, ◌≡◌, refl, ap, ◌∙◌, Bool, true, false, Option, none, some, List, [], ◌∷◌, ◌++◌, Str,
  codes, arith, map, leb, ◌==◌, if◌then◌else◌, Bool-cases, inl, inr,
}
use studio_bondage_club.Json.{JsonLib}
use studio_bondage_club.Connection
use studio_bondage_club.Connection.{
  Call, connected, handled, disconnected, left_room, removed, do_disconnect, dispatch_event,
  handle_sio_payload, ingest, push_locked,
}
use studio_bondage_club.Wire.{
  Packet, PacketType, open_packet, close_packet, ping_packet, pong_packet, message_packet,
  upgrade_packet, noop_packet, decode_payload, parse_packet,
}
use studio_bondage_club.Wire.Event.{Message, parse}

module _ (J : JsonLib) (dump : J.Json → Str) (parse_json : Str → Option J.Json) where
  abbrev Session : Type 0
  Session = Connection.Connection J dump parse_json

  unfoldable pub removals : List (Call J dump parse_json) → ℕ
  removals [] = 0
  removals (removed ∷ cs) = suc (removals cs)
  removals (connected ∷ cs) = removals cs
  removals (handled e d ∷ cs) = removals cs
  removals (disconnected r ∷ cs) = removals cs
  removals (left_room r ∷ cs) = removals cs

  -- The hub was told to remove the session once if it is closing, and else not at all.
  abbrev pub IsOnce : Session → Type 0
  IsOnce c = removals c.calls ≡ (if c.closing then 1 else 0)

  abbrev pub Result : Option Session → Type 0
  Result none = Unit {0}
  Result (some c) = IsOnce c

  removals-append :
      (as' bs : List (Call J dump parse_json)) → removals (as' ++ bs) ≡ removals as' + removals bs
  unfolding removals
  removals-append [] bs = omega arith
  removals-append (removed ∷ cs) bs = ground (arith, removals-append cs bs)
  removals-append (connected ∷ cs) bs = removals-append cs bs
  removals-append (handled e d ∷ cs) bs = removals-append cs bs
  removals-append (disconnected r ∷ cs) bs = removals-append cs bs
  removals-append (left_room r ∷ cs) bs = removals-append cs bs

  removals-left : (rs : List Str) → removals (map left_room rs ++ removed ∷ []) ≡ 1
  unfolding removals
  removals-left [] = refl
  removals-left (r ∷ rs) = removals-left rs

  removals_closed :
      (cs : List (Call J dump parse_json)) (reason : Str) (rs : List Str)
      → removals (cs ++ (disconnected reason ∷ (map left_room rs ++ removed ∷ [])))
        ≡ removals cs + 1
  unfolding removals
  removals_closed cs reason rs =
      removals-append cs (disconnected reason ∷ (map left_room rs ++ removed ∷ []))
      ∙ ap (◌+◌ (removals cs)) (removals-left rs)

  do_disconnect-IsOnce :
      (reason : Str) (c : Session) → IsOnce c → IsOnce (do_disconnect J dump parse_json reason c)
  unfolding do_disconnect removals
  do_disconnect-IsOnce reason c h = elim (Bool-cases c.closing) [
    | inl closed ↦ rw closed (h ∙ ap (λ b. if b then 1 else 0) closed)
    | inr still ↦ rw still (ground (arith, h, still, removals_closed c.calls reason c.rooms))
  ]

  called-IsOnce :
      (e : Str) (d : J.Json) (c : Session)
      → IsOnce c
      → removals (c.calls ++ handled e d ∷ []) ≡ (if c.closing then 1 else 0)
  unfolding removals
  called-IsOnce e d c h = ground (arith, h, removals-append c.calls (handled e d ∷ []))

  dispatch_event-IsOnce :
      (limit now : ℕ) (event : Str) (content : J.Json) (c : Session)
      → IsOnce c
      → IsOnce (dispatch_event J dump parse_json limit now event content c)
  unfolding dispatch_event push_locked
  dispatch_event-IsOnce limit now event content c h =
      elim (Bool-cases
        (leb now ((Connection.window J dump parse_json limit now c.msg_bucket).0 + 1000))) [
          | inl fast ↦ rw fast (do_disconnect-IsOnce (codes "rate limited") _ h)
          | inr slow ↦ rw slow (called-IsOnce event content c h)
        ]

  dispatched-IsOnce :
      (limit now : ℕ) (m : Option (Option (Message J dump parse_json))) (c : Session)
      → IsOnce c
      → Result (Connection.dispatched J dump parse_json limit now m c)
  unfolding Connection.dispatched
  dispatched-IsOnce limit now none c h = tt
  dispatched-IsOnce limit now (some none) c h = h
  dispatched-IsOnce limit now (some (some msg)) c h = elim (Bool-cases msg.is_event) [
    | inl e ↦ rw e (dispatch_event-IsOnce limit now msg.event msg.content c h)
    | inr n ↦ rw n h
  ]

  connect-IsOnce :
      (c : Session) (b : Bool) (out : List Str)
      → IsOnce c
      → IsOnce (
          if b
          then c
          else record c { sio_connected = true; outbox = out; calls = c.calls ++ connected ∷ [] })
  unfolding removals
  connect-IsOnce c true out h = h
  connect-IsOnce c false out h = ground (arith, h, removals-append c.calls (connected ∷ []))

  handle_sio_payload-IsOnce :
      (limit now : ℕ) (payload : Str) (c : Session)
      → IsOnce c
      → Result (handle_sio_payload J dump parse_json limit now payload c)
  unfolding handle_sio_payload push_locked
  handle_sio_payload-IsOnce limit now [] c h = h
  handle_sio_payload-IsOnce limit now (t ∷ s) c h = elim (Bool-cases (t == b'0')) [
    | inl connect ↦ rw connect (connect-IsOnce c c.sio_connected _ h)
    | inr other ↦ elim (Bool-cases (t == b'1')) [
      | inl leave ↦
          rw (other, leave) (do_disconnect-IsOnce (codes "client namespace disconnect") c h)
      | inr event ↦
          rw (other, event) (dispatched-IsOnce limit now (parse J dump parse_json (t ∷ s)) c h)
    ]
  ]

  on_kind-IsOnce :
      (limit now : ℕ) (t : PacketType) (content : Str) (c : Session)
      → IsOnce c
      → Result (Connection.on_kind J dump parse_json limit now t content c)
  unfolding Connection.on_kind push_locked
  on_kind-IsOnce limit now ping_packet content c h = h
  on_kind-IsOnce limit now pong_packet content c h = h
  on_kind-IsOnce limit now message_packet content c h =
      handle_sio_payload-IsOnce limit now content c h
  on_kind-IsOnce limit now close_packet content c h =
      do_disconnect-IsOnce (codes "transport close") c h
  on_kind-IsOnce limit now open_packet content c h = h
  on_kind-IsOnce limit now upgrade_packet content c h = h
  on_kind-IsOnce limit now noop_packet content c h = h

  on_packet-IsOnce :
      (limit now : ℕ) (o : Option Packet) (c : Session)
      → IsOnce c
      → Result (Connection.on_packet J dump parse_json limit now o c)
  unfolding Connection.on_packet
  on_packet-IsOnce limit now none c h = h
  on_packet-IsOnce limit now (some p) c h = on_kind-IsOnce limit now p.kind p.content c h

  Result-if :
      (b : Bool) (d : Session) (o : Option Session)
      → IsOnce d
      → Result o
      → Result (if b then some d else o)
  Result-if true d o h k = h
  Result-if false d o h k = k

  next-IsOnce :
      (limit now : ℕ) (ps : List Str) (o : Option Session)
      → ((d : Session) → IsOnce d → Result (Connection.ingest_all J dump parse_json limit now ps d))
      → Result o
      → Result (elim o [
        | none ↦ none
        | some d ↦
            if d.closing then some d else Connection.ingest_all J dump parse_json limit now ps d
      ])
  next-IsOnce limit now ps none rest h = tt
  next-IsOnce limit now ps (some d) rest h = Result-if d.closing d _ h (rest d h)

  ingest_all-IsOnce :
      (limit now : ℕ) (ps : List Str) (c : Session)
      → IsOnce c
      → Result (Connection.ingest_all J dump parse_json limit now ps c)
  unfolding Connection.ingest_all
  ingest_all-IsOnce limit now [] c h = h
  ingest_all-IsOnce limit now (p ∷ ps) c h =
      next-IsOnce limit now ps (Connection.on_packet J dump parse_json limit now (parse_packet p) c)
        (λ d k. ingest_all-IsOnce limit now ps d k)
        (on_packet-IsOnce limit now (parse_packet p) c h)

  -- A body that is ingested, whatever its packets, leaves a session of which the hub was told to
  -- remove it once if the session is closing and not at all if it is not, if this was so before it; a
  -- body on which an exception escapes is excepted.
  pub ingest-IsOnce :
      (limit now : ℕ) (body : Str) (c : Session)
      → IsOnce c
      → Result (ingest J dump parse_json limit now body c)
  unfolding ingest
  ingest-IsOnce limit now body c h =
      Result-if c.closing c _ h (ingest_all-IsOnce limit now (decode_payload body) c h)
