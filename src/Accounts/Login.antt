-- ===== src/Accounts/Login.antt =====
-- How an account comes online: `account_login_process` and the last part of `account_create`
-- (account_manager.cpp), in the steps between their waits for the database. The handlers that
-- `on_login` binds to the socket are those of Chat.Requests and of this directory.
pub mod Keeps
pub mod Process
use studio_bondage_club.Prelude.{
  ℕ, Bool, true, false, not, ◌&&◌, ◌||◌, Option, none, some, List, [], ◌∷◌, ◌++◌, String, Str,
  codes, ℤ, pos, length, find_if, if◌then◌else◌, str_eq, M, ◌>>=◌, ◌>>◌, pure, done, lift, get,
  modify,
}
use studio_bondage_club.Json.{JsonLib, field?}
use studio_bondage_club.Accounts.Registry.{upper_name, register, remove_account}
use studio_bondage_club.Chat.State.{Account, Game, emit, disconnect_socket, member_number}
use studio_bondage_club.Chat.Sync.{emits}

module _ (J : JsonLib) where
  open J use {
    Json, null, of_str, of_int, of_arr, of_obj, is_null, int?, num?, arr?, member?, put, erase,
  }

  or_put : {A : Type 0} → (Json → Option A) → String → Json → Json → Json
  or_put get? key d a = elim (field? J get? key a) [ none ↦ put key d a | some v ↦ a ]

  -- Missing or mistyped fields get their defaults.
  unfoldable pub valid_data : Json → Json
  unfolding or_put
  valid_data a = or_put arr? "FriendList" (of_arr []) (
      or_put arr? "BlackList" (of_arr [])
        (or_put arr? "WhiteList" (of_arr []) (or_put num? "ItemPermission" (of_int (pos 2)) a)))

  unfoldable pub erase_all : List String → Json → Json
  erase_all [] a = a
  erase_all (k ∷ ks) a = erase_all ks (erase k a)

  abbrev pub purged : List String
  purged =
      "Log" ∷ "Skill" ∷ "Wardrobe" ∷ "WardrobeCharacterNames" ∷ "ChatSettings" ∷ "VisualSettings"
      ∷ "AudioSettings" ∷ "GameplaySettings" ∷ "Email" ∷ "Password" ∷ "LastLogin" ∷ "GhostList"
      ∷ "HiddenItems" ∷ []

  unfoldable pub purge_info : Json → Json
  purge_info a = erase_all purged a

  -- `Lovership` becomes an array: a single entry is wrapped.
  lovership_array : Option Json → Option (List Json) → Json
  lovership_array l (some xs) = of_arr xs
  lovership_array none none = of_arr []
  lovership_array (some l) none = if is_null l then of_arr [] else of_arr (l ∷ [])

  unfoldable pub with_lovership : Json → Json
  unfolding lovership_array
  with_lovership a = elim (field? J arr? "Lovership" a) [
    | some xs ↦ a
    | none ↦ put "Lovership" (lovership_array (member? "Lovership" a) none) a
  ]

  -- The account as it goes online at a time on a session.
  unfoldable pub prepared : Str → ℤ → Json → Json
  prepared socket_id now a = valid_data (
      put "Environment" (of_str (codes "LOCAL"))
        (put "ID" (of_str socket_id) (put "LastLogin" (of_int now) (with_lovership a))))

  unfoldable pub online_account : Str → Json → Account J
  online_account socket_id a = record {
    id = socket_id;
    socket = true;
    fields = purge_info a;
    delayed_appearance = none;
    delayed_skill = none;
    delayed_game = none;
    chat_room = none;
  }

  unfoldable pub send_server_info : Str → ℤ → M (Game J) (Unit {0})
  send_server_info socket_id now = do
    g ← get
    emits J (
        emit socket_id "ServerInfo" (
          of_obj
            (("Time", of_int now) ∷ ("OnlinePlayers", of_int (pos (length g.by_socket))) ∷ [])))

  -- The first session, in the order of `by_socket`, of an account with this name.
  duplicate_in : Str → List (Account J) → M (Game J) (Option (Account J))
  duplicate_in upper [] = pure none
  duplicate_in upper (a ∷ as') = do
    n ← lift (upper_name J a)
    if str_eq n upper then pure (some a) else duplicate_in upper as'

  online_in : List (Account J) → List Str → List (Account J)
  online_in accounts [] = []
  online_in accounts (i ∷ ids) = elim (find_if (λ a. str_eq a.id i) accounts) [
    | none ↦ online_in accounts ids
    | some a ↦ a ∷ online_in accounts ids
  ]

  -- The accounts online, in the order of `by_socket`.
  unfoldable pub online : Game J → List (Account J)
  unfolding online_in
  online g = online_in g.accounts g.by_socket

  drop_duplicate : Option (Account J) → M (Game J) (Unit {0})
  drop_duplicate none = done
  drop_duplicate (some dup) =
      if dup.socket
      then (do
        emits J (emit dup.id "ForceDisconnect" (of_str (codes "ErrorDuplicatedLogin")))
        emits J (disconnect_socket dup.id)
        remove_account J dup.id)
      else done

  -- The database has answered: the stored account, and whether the password fits it. `connected` says
  -- whether the client is still there. The result says whether the login goes on.
  unfoldable pub login_answered : Str → Str → Bool → Option Json → Bool → M (Game J) Bool
  unfolding duplicate_in drop_duplicate
  login_answered socket_id upper false found ok = pure false
  login_answered socket_id upper true none ok = do
    emits J (emit socket_id "LoginResponse" (of_str (codes "InvalidNamePassword")))
    pure false
  login_answered socket_id upper true (some a) false = do
    emits J (emit socket_id "LoginResponse" (of_str (codes "InvalidNamePassword")))
    pure false
  login_answered socket_id upper true (some a) true = do
    g ← get
    dup ← duplicate_in upper (online g)
    drop_duplicate dup
    pure true

  -- An account without a number is given the next one.
  unfoldable pub numbered : ℤ → Json → Json
  numbered next a = elim (field? J int? "MemberNumber" a) [
    | none ↦ put "MemberNumber" (of_int next) a
    | some n ↦ a
  ]

  -- The last step: the account, which `prepared` has made, is online.
  unfoldable pub login_commit : Str → ℤ → Json → M (Game J) (Unit {0})
  login_commit socket_id now a =
      let acc = online_account socket_id a in
      do
        modify (register J acc (member_number J acc))
        emits J (emit socket_id "LoginResponse" (erase "Email" (erase "Password" a)))
        send_server_info socket_id now

  -- The account that `account_create` stores.
  unfoldable pub new_account : Str → Str → Str → Str → ℤ → ℤ → Json
  new_account upper email hash name member now = of_obj (
      ("AccountName", of_str upper)
      ∷ ("Email", of_str email)
      ∷ ("Password", of_str hash)
      ∷ ("MemberNumber", of_int member)
      ∷ ("Name", of_str name)
      ∷ ("Money", of_int (pos 100))
      ∷ ("Creation", of_int now)
      ∷ ("LastLogin", of_int now)
      ∷ ("Environment", of_str (codes "LOCAL"))
      ∷ ("Lovership", of_arr [])
      ∷ ("ItemPermission", of_int (pos 2))
      ∷ ("FriendList", of_arr [])
      ∷ ("WhiteList", of_arr [])
      ∷ ("BlackList", of_arr [])
      ∷ [])

  -- The last step of a creation: the account is online.
  unfoldable pub create_commit : Str → ℤ → ℤ → Json → M (Game J) (Unit {0})
  create_commit socket_id member now account = do
    modify (
        register J (online_account socket_id (valid_data (put "ID" (of_str socket_id) account)))
          member)
    emits J (
        emit socket_id "CreationResponse" (
          of_obj (
            ("ServerAnswer", of_str (codes "AccountCreated"))
            ∷ ("OnlineID", of_str socket_id)
            ∷ ("MemberNumber", of_int member)
            ∷ [])))
    send_server_info socket_id now
