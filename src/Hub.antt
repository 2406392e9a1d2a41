-- ===== src/Hub.antt =====
-- The connection hub (server/gameserver/socketio/server.cpp): the session registry, the index of the
-- rooms, the limits per address and the routing of a request. A map is a function: a missing entry of
-- `rooms_` and of `ip_connections_` reads as the empty list, which the code never keeps as an entry.
-- Times are milliseconds. `connect_handler_`, the coroutines and the locks are not modelled.
pub mod Accounting
use studio_bondage_club.Prelude.{
  ℕ, ◌+◌, ◌-◌, Bool, true, false, not, ◌&&◌, ◌||◌, Option, none, some, List, [], ◌∷◌, ◌++◌, Str,
  codes, leb, ◌==◌, length, get_elem?, any, reject, find_if, if◌then◌else◌, str_eq, is_empty, split,
  cut, trim_by, reverse,
}
use studio_bondage_club.Http.{HeaderMap, get, iequals, header_contains_token}
use studio_bondage_club.Chat.Names.{trim}

pub record Hub : Type 0 where
  pub by_sid : List Str
  pub rooms : Str → List Str
  pub ip_connections : Str → List ℕ
  pub ip_by_sid : List (Str × Str)

-- `ip_connection_limit` and `ip_connection_rate_per_sec`.
pub record Limits : Type 0 where
  pub connections : ℕ
  pub rate : ℕ

abbrev pub update {ℓ} : {A : Type ℓ} → Str → A → (Str → A) → Str → A
update k v f j = if str_eq j k then v else f j

-- The value of a query parameter, not decoded.
param_in : Str → List Str → Str
param_in key [] = []
param_in key (part ∷ parts) =
    let rest = param_in key parts in
    elim (cut b'=' part) [ none ↦ rest | some e ↦ if str_eq e.0 key then e.1 else rest ]

unfoldable pub query_param : Str → Str → Str
unfolding param_in
query_param query key = param_in key (split b'&' query)

last_of : List Str → Str
last_of [] = []
last_of (p ∷ []) = p
last_of (p ∷ q ∷ ps) = last_of (q ∷ ps)

or_peer : Str → Str → Str
or_peer remote [] = if is_empty remote then codes "unknown" else remote
or_peer remote (c ∷ s) = c ∷ s

-- The last hop of `X-Forwarded-For`, or the address of the peer.
unfoldable pub client_address : HeaderMap → Str → Str
unfolding last_of or_peer
client_address headers remote =
    or_peer remote (trim (last_of (split b',' (get (codes "X-Forwarded-For") headers))))

pub data Route : Type 0 where
  ws_upgrade poll post : Str → Route
  handshake session_unknown method_not_allowed : Route

-- A session that is registered, or the answer 400.
unfoldable pub with_session : Hub → (Str → Route) → Str → Route
with_session hub k sid = if any (str_eq sid) hub.by_sid then k sid else session_unknown

unfoldable pub handle_request : Hub → Str → HeaderMap → Str → Route
handle_request hub method headers raw_query =
    let sid = query_param raw_query (codes "sid") in
    if iequals (get (codes "Upgrade") headers) (codes "websocket")
      && header_contains_token (get (codes "Connection") headers) (codes "upgrade")
    then with_session hub ws_upgrade sid
    else if str_eq method (codes "GET")
    then if is_empty sid then handshake else with_session hub poll sid
    else if str_eq method (codes "POST")
    then with_session hub post sid
    else method_not_allowed

-- The registration of `handle_handshake`.
unfoldable pub register : Str → Hub → Hub
register sid hub = record hub { by_sid = sid ∷ reject (str_eq sid) hub.by_sid }

-- `none` where the code would read beyond the end, which it does if the rate is 0; the configuration
-- refuses that rate.
over_rate : ℕ → ℕ → List ℕ → Option Bool
over_rate rate now v =
    if leb rate (length v)
    then elim (get_elem? v (length v - rate)) [ none ↦ none | some t ↦ some (leb now (t + 1000)) ]
    else some false

admit : Limits → Str → ℕ → Hub → Option Bool → Option (Bool × Hub)
admit lim address now hub none = none
admit lim address now hub (some over) =
    if leb lim.connections (length (hub.ip_connections address)) || over
    then some (false, hub)
    else some (
      true,
      record hub {
        ip_connections = update address (hub.ip_connections address ++ now ∷ []) hub.ip_connections;
      },
    )

unfoldable pub register_ip_connection : Limits → Str → ℕ → Hub → Option (Bool × Hub)
unfolding admit over_rate
register_ip_connection lim address now hub =
    admit lim address now hub (over_rate lim.rate now (hub.ip_connections address))

-- The map from accepted sessions to addresses: `m[sid] = address`, `find` and `erase`.
unfoldable pub assign_sid : Str → Str → List (Str × Str) → List (Str × Str)
assign_sid sid address [] = (sid, address) ∷ []
assign_sid sid address (e ∷ es) =
    let rest = assign_sid sid address es in if str_eq e.0 sid then (sid, address) ∷ es else e ∷ rest

unfoldable pub address_of : Str → List (Str × Str) → Option Str
address_of sid [] = none
address_of sid (e ∷ es) = let rest = address_of sid es in if str_eq e.0 sid then some e.1 else rest

unfoldable pub erase_sid : Str → List (Str × Str) → List (Str × Str)
erase_sid sid [] = []
erase_sid sid (e ∷ es) = let rest = erase_sid sid es in if str_eq e.0 sid then es else e ∷ rest

remember : Str → Str → Option (Bool × Hub) → Option (Bool × Hub)
remember sid address none = none
remember sid address (some (false, hub)) = some (false, hub)
remember sid address (some (true, hub)) =
    some (true, record hub { ip_by_sid = assign_sid sid address hub.ip_by_sid })

-- `on_connection`: whether the connection is accepted, and the hub after it. An accepted socket goes to
-- the connect handler; a refused one is sent ForceDisconnect and disconnected.
unfoldable pub on_connection : Limits → Str → Str → ℕ → Hub → Option (Bool × Hub)
unfolding remember
on_connection lim sid address now hub =
    remember sid address (register_ip_connection lim address now hub)

without_first : List ℕ → List ℕ
without_first [] = []
without_first (t ∷ ts) = ts

unfoldable pub release_ip_connection : Str → Hub → Hub
unfolding without_first
release_ip_connection address hub = record hub {
  ip_connections = update address (without_first (hub.ip_connections address)) hub.ip_connections;
}

release_of : Option Str → Hub → Hub
release_of none hub = hub
release_of (some address) hub = if is_empty address then hub else release_ip_connection address hub

unfoldable pub remove : Str → Hub → Hub
unfolding release_of
remove sid hub = release_of (address_of sid hub.ip_by_sid) (record hub {
  by_sid = reject (str_eq sid) hub.by_sid;
  ip_by_sid = erase_sid sid hub.ip_by_sid;
})

unfoldable pub join_room : Str → Str → Hub → Hub
join_room room sid hub = record hub {
  rooms =
      update room
        (if any (str_eq sid) (hub.rooms room) then hub.rooms room else hub.rooms room ++ sid ∷ [])
        hub.rooms;
}

unfoldable pub leave_room : Str → Str → Hub → Hub
leave_room room sid hub = record hub {
  rooms = update room (reject (str_eq sid) (hub.rooms room)) hub.rooms;
}

-- The connections that `emit_to_room` and `emit_to_all` send an event to.
unfoldable pub emit_to_room : Str → Str → Hub → List Str
emit_to_room room except_sid hub =
    reject (λ sid. str_eq sid except_sid || not (any (str_eq sid) hub.by_sid)) (hub.rooms room)

unfoldable pub emit_to_all : Hub → List Str
emit_to_all hub = hub.by_sid

unfoldable pub online_count : Hub → ℕ
online_count hub = length hub.by_sid
