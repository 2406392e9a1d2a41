-- ===== src/Lib.antt =====
-- A verification library of the studio's server: the game server (src/server/gameserver) with its
-- accounts, its chat rooms and its Socket.IO transport, and the HTTP helpers, the text helpers and the
-- cache rules that the servers share (src/common, src/cache).
--
-- The parts and how they interact. A browser speaks HTTP to the connection hub
-- (socketio/server.cpp), which registers one session (socketio/connection.cpp) per client, limits
-- the connections of an address and routes polls and posts. A session decodes Engine.IO packets
-- (engineio/eio_protocol.cpp) and the Socket.IO events in them (socketio/sio_protocol.cpp), limits
-- their rate, and calls the handler bound to the event. The handlers of chat rooms
-- (game/chatroom_manager.cpp) change the accounts and the rooms of one game state under a mutex
-- and send messages to sessions and rooms. The account manager (game/account_manager.cpp) keeps
-- the accounts that are online in the same state, and a state of its own for those that are about
-- to come online: limits on new accounts, the login queue and the numbers that reset a password.
-- What one of its coroutines does between two waits is a step; what the database answers comes as
-- an argument of the next step, and what is written to the database is an effect. Passwords are
-- stored as hashes (game/password.cpp), in base64 (common/base64.cpp). The headers
-- (common/http_util.cpp) and the cache policy (cache/policy.cpp) serve the proxy, as does the
-- router (cache/router.cpp), which picks the rule for a request by globs.
--
-- The files.
--   Prelude       bytes, integers, lists, texts cut at a separator, and the handlers' monad: a state
--                 and a value, or an exception that leaves the state as it then was
--   Json          nlohmann::json, as an interface: operations and documented laws
--   Chat/State    OnlineAccount, ChatRoom and GameState; pointers are ids, and a write through a
--                 pointer is a write to the entry with the id
--   Chat/Roles    has_str, has_member, account_has_any_role, dominance, get_allow_item
--   Chat/Sync     the messages: char_shared_data, the sync_ functions, chat_room_message
--   Chat/Names    trim, upper_trim, the name pattern and the room limit
--   Chat/Search, Chat/Create, Chat/Join, Chat/Leave, Chat/Characters, Chat/Expressions
--                 the handlers of the same names
--   Chat/RoomUpdate, Chat/Moderation, Chat/Admin
--                 chat_room_admin: its Update action, its actions on members, and its dispatch
--   Chat/Requests register_handlers
--   Chat/Valid    what it means that the rooms are valid; the Keeps files prove it of each handler
--   Accounts/Merge    merge_set_fields (common/json_merge.cpp)
--   Accounts/Registry by_socket and by_member, remove_account, flush_delayed_updates
--   Accounts/Login    the steps of account_login_process and the end of account_create; Login/Process
--                 has the whole of account_login_process, and run_login_queue
--   Accounts/Update, Accounts/Contact
--                 account_update, account_difficulty, account_update_email; account_query, account_beep
--   Accounts/Desk     account_create, the login queue, password_reset; Desk/Runner has the coroutines
--                 of the queue, interleaved at their waits
--   Accounts/Bond, Accounts/Ownership
--                 account_ownership: the steps, the release of an absent submissive (Release) and the
--                 whole request (Request)
--   Accounts/Lovership
--                 account_lovership: the lists of relations, the offers (Propose), the acceptance
--                 (Accept), the end of a relation (Break) and the whole request (Request)
--   Accounts/Requests  on_login, and the states that sequences of events lead to
--   Cache/Glob    glob_match; Glob/Meaning says what a glob means
--   Cache/Router  PolicyRouter
--   Cache/Version extract_version and rewrite_key_path of cache/version.cpp
--   Base64, Password  base64_encode, base64_decode; hash_password, verify_password
--   Wire          Engine.IO packets and payloads; Wire/Event has the Socket.IO packets
--   Hub           SocketIoServer: sessions, rooms, address limits, routing
--   Connection    Connection: outbox, dispatch, rate limit, disconnection, heartbeat
--   Http          HeaderMap and the readers of header values: the canonical keys (Canonical), the
--                 directives of Cache-Control (Directives), what a proxy strips (Stripped);
--                 Http/Policy has the cache policy
--   Tests         a concrete JSON library, and the theorems at concrete inputs
--
-- Numbers, loops and errors. Native numbers stand for sizes and times, and ℤ for the 64-bit
-- numbers of JSON. They are read and compared; where the code adds to them the wrap-around is
-- written out, in the test of dominance, for a recorded time and a delay, and in the cache's times
-- (nanoseconds); the sums of the present, in milliseconds, and a setting cannot overflow. An item
-- permission is read as a 32-bit number, as the code does. Every loop is structural recursion over
-- the text or list that it walks, except for globs, decimal numbers and the loop of the login
-- queue, which run on fuel; the length of the pattern, the number itself and the number of clients
-- are enough. A JSON type error, std::stoi and std::out_of_range are the value `none`. Random ids,
-- random numbers, shuffles and the clock are arguments.
--
-- Not modelled: the timers of the account manager, and the writes of a login before it goes
-- online; the database and mail; the cache's store and counters; the reverse proxy, RPC, static
-- assets and user scripts; sockets, TLS, regular expressions, key derivation, coroutines and
-- locks, which are input and output or belong to other libraries; the clients. A handler's changes
-- and messages are one step, since it holds the game's mutex. Accounts and rooms are found by
-- their ids: a pointer to a freed room is read as an absent room or as an exception, where the
-- code reads freed memory, and a session that logs in twice has one account object, where the code
-- keeps the older one under its number. What a message causes at its receiver is not followed.
-- Texts are bytes, so that a text cut in the middle of a character is not refused as the JSON
-- library would refuse it.
pub mod Prelude
pub mod Json
pub mod Chat
pub mod Accounts
pub mod Cache
pub mod Base64
pub mod Password
pub mod Http
pub mod Wire
pub mod Hub
pub mod Connection
pub mod Tests
