-- ===== src/Accounts/Contact.antt =====
-- `account_query` with the e-mail status, and `account_beep` (account_manager.cpp).
pub mod Keeps
use studio_bondage_club.Prelude.{
  Bool, true, false, not, ◌&&◌, ◌||◌, Option, none, some, List, [], ◌∷◌, ◌++◌, String, Str, codes,
  ℤ, negsuc, eq_ℤ, any, map, find_if, if◌then◌else◌, str_eq, is_empty, M, ◌>>=◌, ◌>>◌, pure, done,
  lift, get,
}
use studio_bondage_club.Json.{JsonLib, value, value_arr, value_int, field?, object_field}
use studio_bondage_club.Accounts.Login.{online}
use studio_bondage_club.Accounts.Registry.{upper_name, get_by_member}
use studio_bondage_club.Chat.Roles.{has_member, has_str_in}
use studio_bondage_club.Chat.State.{
  Account, ChatRoom, Game, emit, member_number, account_name, environment, account_for, room_of,
}
use studio_bondage_club.Chat.Sync.{emits, optional}

module _ (J : JsonLib) where
  open J use {
    Json, null, of_str, of_int, of_bool, of_arr, of_obj, is_object, is_null, str?, int?, bool?,
    arr?, member?, equal, items,
  }

  -- What a loop over a JSON value visits: a value that is no array and no object is visited itself.
  unfoldable pub iterated : Json → List Json
  iterated j = elim (arr? j) [
    | some xs ↦ xs
    | none ↦ if is_object j then map (λ e. e.1) (items j) else if is_null j then [] else j ∷ []
  ]

  unfoldable pub friend_info : String → Account J → M (Game J) Json
  friend_info type' a = do
    name ← lift (account_name J a)
    pure (
        of_obj (
          ("Type", of_str (codes type'))
          ∷ ("MemberNumber", of_int (member_number J a))
          ∷ ("MemberName", of_str name)
          ∷ optional J "MemberNickname" (member? "Nickname" a.fields)))

  -- `o.value("MemberNumber", -1) == n`.
  abbrev pub number_is : ℤ → Json → Option Bool
  number_is n o = elim (value_int J "MemberNumber" (negsuc 0) o) [
    | none ↦ none
    | some m ↦ some (eq_ℤ m n)
  ]

  unfoldable pub is_owned : ℤ → Account J → Option Bool
  is_owned n a = elim (object_field J "Ownership" a.fields) [
    | none ↦ some false
    | some o ↦ number_is n o
  ]

  -- The loop has no `break`, so that each entry may throw.
  lover_in : ℤ → Bool → List Json → Option Bool
  lover_in n found [] = some found
  lover_in n found (l ∷ ls) =
      if is_object l
      then elim (number_is n l) [ none ↦ none | some b ↦ lover_in n (found || b) ls ]
      else lover_in n found ls

  lovers_or : ℤ → Option (List Json) → Option Bool
  lovers_or n none = some false
  lovers_or n (some ls) = lover_in n false ls

  unfoldable pub is_lover : ℤ → Account J → Option Bool
  unfolding lover_in lovers_or
  is_lover n a = lovers_or n (field? J arr? "Lovership" a.fields)

  -- One account of the first loop: its entry and its number, if it is to be listed.
  kin_entry : ℤ → Str → Account J → M (Game J) (List (ℤ × Json))
  kin_entry my my_env other = do
    env ← lift (environment J other)
    if str_eq env my_env
        then (do
          owned ← lift (is_owned my other)
          lover ← lift (is_lover my other)
          if owned || lover
              then (do
                entry ← friend_info (if owned then "Submissive" else "Lover") other
                pure ((member_number J other, entry) ∷ []))
              else pure [])
        else pure []

  kin_of : ℤ → Str → List (Account J) → M (Game J) (List (ℤ × Json))
  unfolding kin_entry
  kin_of my my_env [] = pure []
  kin_of my my_env (a ∷ as') = do
    e ← kin_entry my my_env a
    es ← kin_of my my_env as'
    pure (e ++ es)

  -- The first session with the number is the only one that is looked at.
  friend_entry : ℤ → Str → Option (Account J) → M (Game J) (List Json)
  friend_entry my my_env none = pure []
  friend_entry my my_env (some other) = do
    env ← lift (environment J other)
    if str_eq env my_env && elim (field? J arr? "FriendList" other.fields) [
      | none ↦ false
      | some ofl ↦ any (λ e. equal e (of_int my)) ofl
    ]
        then (do entry ← friend_info "Friend" other; pure (entry ∷ []))
        else pure []

  friend_of : ℤ → Str → List ℤ → List (Account J) → Option ℤ → M (Game J) (List Json)
  unfolding friend_entry
  friend_of my my_env indexed sessions none = pure []
  friend_of my my_env indexed sessions (some fn) =
      if any (eq_ℤ fn) indexed
      then pure []
      else friend_entry my my_env (find_if (λ a. eq_ℤ (member_number J a) fn) sessions)

  friends_of : ℤ → Str → List ℤ → List (Account J) → List Json → M (Game J) (List Json)
  unfolding friend_of
  friends_of my my_env indexed sessions [] = pure []
  friends_of my my_env indexed sessions (f ∷ fs) = do
    e ← friend_of my my_env indexed sessions (int? f)
    es ← friends_of my my_env indexed sessions fs
    pure (e ++ es)

  abbrev query_result : Str → String → Json → M (Game J) (Unit {0})
  query_result i query r =
      emits J (
        emit i "AccountQueryResult" (of_obj (("Query", of_str (codes query)) ∷ ("Result", r) ∷ [])))

  friends_listed : Option Json → List Json
  friends_listed none = []
  friends_listed (some l) = iterated l

  online_friends : Str → Option (Account J) → M (Game J) (Unit {0})
  unfolding kin_of friends_of friends_listed
  online_friends i none = done
  online_friends i (some self) = do
    g ← get
    my_env ← lift (environment J self)
    kin ← kin_of (member_number J self) my_env (online J g)
    friends ←
        friends_of (member_number J self) my_env (map (λ e. e.0) kin) (online J g)
          (friends_listed (member? "FriendList" self.fields))
    query_result i "OnlineFriends" (of_arr (map (λ e. e.1) kin ++ friends))

  -- The name under which the stored account is then looked up.
  email_status_asked : Option (Account J) → M (Game J) (Option Str)
  email_status_asked none = pure none
  email_status_asked (some acc) = do upper ← lift (upper_name J acc); pure (some upper)

  unfoldable pub email_status_answered : Str → Option Json → M (Game J) (Unit {0})
  email_status_answered i none = query_result i "EmailStatus" (of_bool false)
  email_status_answered i (some a) = do
    email ← lift (value J str? "Email" [] a)
    query_result i "EmailStatus" (of_bool (not (is_empty email)))

  query_of : Str → Str → M (Game J) (Option Str)
  unfolding online_friends email_status_asked
  query_of i query = do
    g ← get
    if str_eq query (codes "OnlineFriends")
        then (online_friends i (account_for J i g) >> pure none)
        else if str_eq query (codes "EmailStatus")
        then email_status_asked (account_for J i g)
        else pure none

  query_if : Str → Option Str → M (Game J) (Option Str)
  unfolding query_of
  query_if i none = pure none
  query_if i (some query) = query_of i query

  unfoldable pub account_query : Str → Json → M (Game J) (Option Str)
  unfolding query_if
  account_query i json = query_if i (if is_object json then field? J str? "Query" json else none)

  -- A beep passes to a friend's list, to an account that the sender owns, and on a leash.
  unfoldable pub may_beep : ℤ → Str → Account J → Option Bool
  may_beep my beep_type other = elim (value_arr J "FriendList" other.fields) [
    | none ↦ none
    | some friends ↦ elim (value J some "Ownership" null other.fields) [
      | none ↦ none
      | some o ↦ elim (if is_object o then number_is my o else some false) [
        | none ↦ none
        | some owns ↦ some (has_member J friends my || owns || str_eq beep_type (codes "Leash"))
      ]
    ]
  ]

  abbrev pub Place : Type 0
  Place = Json × Json × Json

  place_in : Option (ChatRoom J) → M (Game J) Place
  place_in none = lift none
  place_in (some room) = pure (
    of_str room.props.space,
    of_str room.props.name,
    of_bool (not (has_str_in J room.props.visibility (codes "All"))),
  )

  -- Where the sender is, unless it is in no room or the beep is secret.
  place_of : Bool → Option Str → M (Game J) Place
  unfolding place_in
  place_of is_secret none = pure (null, null, null)
  place_of true (some rid) = pure (null, null, null)
  place_of false (some rid) = do g ← get; place_in (room_of J (some rid) g)

  beep_json : Account J → Str → Place → Str → Option Json → Json
  beep_json me name (space, room, priv) beep_type message = of_obj (
      ("MemberNumber", of_int (member_number J me))
      ∷ ("MemberName", of_str name)
      ∷ ("ChatRoomSpace", space)
      ∷ ("ChatRoomName", room)
      ∷ ("Private", priv)
      ∷ ("BeepType", if is_empty beep_type then null else of_str beep_type)
      ∷ optional J "Message" message)

  beep_to : Json → Bool → Str → Account J → Account J → M (Game J) (Unit {0})
  unfolding place_of beep_json
  beep_to json is_secret beep_type me other = do
    other_env ← lift (environment J other)
    my_env ← lift (environment J me)
    if str_eq other_env my_env
        then (do
          may ← lift (may_beep (member_number J me) beep_type other)
          if may
              then (do
                name ← lift (account_name J me)
                place ← place_of is_secret me.chat_room
                if other.socket
                    then emits J (
                        emit other.id "AccountBeep"
                          (beep_json me name place beep_type (member? "Message" json)))
                    else done)
              else done)
        else done

  beep_found : Json → Bool → Str → Option (Account J) → Option (Account J) → M (Game J) (Unit {0})
  unfolding beep_to
  beep_found json is_secret beep_type (some me) (some other) =
      beep_to json is_secret beep_type me other
  beep_found json is_secret beep_type none other = done
  beep_found json is_secret beep_type (some me) none = done

  text_or_empty : Option Str → Str
  text_or_empty none = []
  text_or_empty (some s) = s

  beep_if : Str → Json → Option ℤ → M (Game J) (Unit {0})
  unfolding beep_found text_or_empty
  beep_if i json none = done
  beep_if i json (some target) = do
    is_secret ← lift (value J bool? "IsSecret" false json)
    g ← get
    beep_found json is_secret (text_or_empty (field? J str? "BeepType" json)) (account_for J i g)
        (get_by_member J target g)

  unfoldable pub account_beep : Str → Json → M (Game J) (Unit {0})
  unfolding beep_if
  account_beep i json =
      beep_if i json (if is_object json then field? J int? "MemberNumber" json else none)
