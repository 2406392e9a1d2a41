-- ===== src/Tests/ChatExamples.antt =====
-- The theorems about chat rooms (server/gameserver/game), applied to one player who makes a room.
use studio_bondage_club.Prelude.{
  ◌≡◌, refl, Bool, true, false, none, some, List, [], ◌∷◌, Str, codes, ℤ, pos, length, arith, take,
  inl, ◌⊎◌, ◌↔◌, ◌++◌, map, to_lower,
}
use studio_bondage_club.Chat.Admin.{chat_room_admin}
use studio_bondage_club.Chat.Admin.Guard.{Administers, chat_room_admin-cases}
use studio_bondage_club.Chat.Join.{chat_room_join}
use studio_bondage_club.Chat.Join.Guard.{IsUnchanged, Admits, chat_room_join-cases}
use studio_bondage_club.Chat.Names.{Settings, is_blank, upper_trim}
use studio_bondage_club.Chat.Names.Same.{upper_trim-same}
use studio_bondage_club.Chat.Requests.{Request, create, handle}
use studio_bondage_club.Chat.Roles.{Relation, allowed}
use studio_bondage_club.Chat.Roles.Allow.{
  Permits, trusted, Permits-allowed, allowed-Permits, allowed-antitone,
}
use studio_bondage_club.Chat.Search.{collect}
use studio_bondage_club.Chat.Search.Collect.{kept, collect-take}
use studio_bondage_club.Chat.State.{Account, ChatRoom, Game}
use studio_bondage_club.Chat.Valid.{IsValid}
use studio_bondage_club.Tests.JsonExample.{json_example, Value, v_obj, v_str, v_int, v_arr}

abbrev pub settings : Settings
settings = record {
  description_max_len = pos 200;
  room_limit_default = pos 10;
  room_limit_min = pos 2;
  room_limit_max = pos 20;
  search_max_results = pos 5;
}

abbrev pub show_number : ℤ → Str
show_number n = codes "1"

abbrev pub unshuffled : List Str → List Str
unshuffled xs = xs

pub length-unshuffled : (xs : List Str) → length (unshuffled xs) ≡ length xs
length-unshuffled xs = refl

abbrev pub ann : Account json_example
ann = record {
  id = codes "s1";
  socket = true;
  fields = v_obj (
      ("MemberNumber", v_int (pos 1))
      ∷ ("Name", v_str (codes "Ann"))
      ∷ ("Environment", v_str [])
      ∷ []);
  delayed_appearance = none;
  delayed_skill = none;
  delayed_game = none;
  chat_room = none;
}

abbrev pub no_rooms : Game json_example
no_rooms = record {
  accounts = ann ∷ [];
  by_socket = codes "s1" ∷ [];
  by_member = (pos 1, codes "s1") ∷ [];
  rooms = [];
  effects = [];
}

pub no_rooms-IsValid : IsValid json_example no_rooms.rooms
no_rooms-IsValid = record { ids = tt; names = tt; sound = refl }

abbrev wish : Value
wish = v_obj (
    ("Name", v_str (codes "Den"))
    ∷ ("Description", v_str (codes "A den"))
    ∷ ("Background", v_str (codes "Cave"))
    ∷ ("Visibility", v_arr (v_str (codes "All") ∷ []))
    ∷ ("Access", v_arr (v_str (codes "All") ∷ []))
    ∷ [])

abbrev make_den : Request json_example
make_den = create (codes "r1") (pos 7) wish

abbrev with_den : Game json_example
with_den = (handle json_example settings show_number unshuffled (codes "s1") make_den no_rooms).1

abbrev lover : Relation
lover = record {
  permission = pos 2;
  itself = false;
  owned_by_source = false;
  blacklisted = false;
  whitelisted = true;
  is_lover = false;
}

lover-Permits : Permits lover false
lover-Permits = trusted refl refl (inl refl)

lover-allowed : allowed lover (some false) ≡ some true
unfolding allowed
lover-allowed = refl

Permits-allowed_example : allowed lover (some false) ≡ some true
Permits-allowed_example = Permits-allowed lover false lover-Permits

allowed-Permits_example : Permits lover false
allowed-Permits_example = allowed-Permits lover false lover-allowed

allowed-antitone_example : allowed (record lover { permission = pos 1 }) (some false) ≡ some true
allowed-antitone_example = allowed-antitone lover false (pos 1) refl (omega arith) lover-allowed

upper_trim-same_example :
    (upper_trim (codes "  " ++ (codes "my Den" ++ codes " "))
      ≡ upper_trim ([] ++ (codes "MY DEN" ++ [])))
    ↔ (map to_lower (codes "my Den") ≡ map to_lower (codes "MY DEN"))
unfolding is_blank
upper_trim-same_example =
    upper_trim-same (codes "  ") (codes "my Den") (codes " ") [] (codes "MY DEN") [] refl refl refl
      refl

abbrev all_listed : ChatRoom json_example → Bool
all_listed r = true

collect-take_example :
    collect json_example all_listed (pos 5) 0 with_den.rooms
    ≡ take 5 (kept json_example all_listed with_den.rooms)
collect-take_example = collect-take json_example all_listed 5 with_den.rooms (omega arith)

abbrev den_wanted : Value
den_wanted = v_obj (("Name", v_str (codes "den")) ∷ [])

chat_room_join-cases_example :
    IsUnchanged json_example with_den
      (chat_room_join json_example (codes "s1") den_wanted with_den).1
    ⊎ Admits json_example (codes "s1") den_wanted with_den
chat_room_join-cases_example = chat_room_join-cases json_example (codes "s1") den_wanted with_den

abbrev kick_wanted : Value
kick_wanted = v_obj (("MemberNumber", v_int (pos 2)) ∷ ("Action", v_str (codes "Kick")) ∷ [])

chat_room_admin-cases_example :
    ((chat_room_admin json_example settings show_number unshuffled
        (codes "s1")
        kick_wanted
        with_den).1
      ≡ with_den)
    ⊎ Administers json_example settings show_number unshuffled (codes "s1") with_den
chat_room_admin-cases_example =
    chat_room_admin-cases json_example settings show_number unshuffled (codes "s1") kick_wanted
      with_den
