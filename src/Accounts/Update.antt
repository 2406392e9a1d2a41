-- ===== src/Accounts/Update.antt =====
-- `account_update`, `account_difficulty` and `account_update_email` (account_manager.cpp).
pub mod Keeps
pub mod Email
use studio_bondage_club.Prelude.{
  ℕ, Bool, true, false, not, ◌&&◌, ◌||◌, Option, none, some, List, [], ◌∷◌, ◌++◌, String, Str,
  codes, ℤ, pos, ◌+ℤ◌, wrap_64, leb_ℤ, ltb_ℤ, leb, ◌==◌, if◌then◌else◌, str_eq, is_empty, map,
  to_lower, M, ◌>>=◌, ◌>>◌, pure, done, lift, get, modify,
}
use studio_bondage_club.Json.{JsonLib, value, value_int, field?, object_field}
use studio_bondage_club.Accounts.Login.{erase_all}
use studio_bondage_club.Accounts.Merge.{merge_set_fields}
use studio_bondage_club.Accounts.Registry.{upper_name}
use studio_bondage_club.Chat.Names.{trim}
use studio_bondage_club.Chat.State.{
  Account, Game, emit, persist_fields, account_for, modify_account,
}
use studio_bondage_club.Chat.Sync.{emits}

-- The fields that `account_update` does not take.
abbrev pub immutable : List String
immutable =
    "Name" ∷ "AccountName" ∷ "Password" ∷ "Email" ∷ "Creation" ∷ "LastLogin" ∷ "Pose" ∷ "ActivePose"
    ∷ "ChatRoom" ∷ "ID" ∷ "Socket" ∷ "Inventory" ∷ "_id" ∷ "MemberNumber" ∷ "Environment"
    ∷ "Ownership" ∷ "Lovership" ∷ "Difficulty" ∷ "AssetFamily" ∷ "DelayedAppearanceUpdate"
    ∷ "DelayedSkillUpdate" ∷ "DelayedGameUpdate" ∷ []

module _ (J : JsonLib) where
  open J use {
    Json, null, of_str, of_int, of_bool, of_obj, is_object, str?, int?, num?, member?, put, erase,
    size,
  }

  abbrev pub merged : Json → Account J → Account J
  merged fields acc = record acc { fields = merge_set_fields J acc.fields fields }

  abbrev delay_appearance : Option Json → Account J → Account J
  delay_appearance v acc = record acc { delayed_appearance = v }

  abbrev delay_skill : Option Json → Account J → Account J
  delay_skill v acc = record acc { delayed_skill = v }

  abbrev delay_game : Option Json → Account J → Account J
  delay_game v acc = record acc { delayed_game = v }

  abbrev contains : String → Json → Bool
  contains key j = elim (member? key j) [ none ↦ false | some v ↦ true ]

  abbrev reset_if : Bool → Str → (Option Json → Account J → Account J) → M (Game J) (Unit {0})
  reset_if b i delay = if b then modify (modify_account J i (delay none)) else done

  -- What is left of the request is written, but never the map.
  persist_rest : Str → Json → M (Game J) (Unit {0})
  persist_rest upper fields =
      if size (erase "MapData" fields) == 0
      then done
      else emits J (persist_fields upper (erase "MapData" fields))

  -- A single field of these three is kept for later; several fields replace what was kept.
  unfoldable pub settle_update : Str → Str → Json → M (Game J) (Unit {0})
  unfolding persist_rest
  settle_update i upper fields =
      if size fields == 1 && contains "Appearance" fields
      then modify (modify_account J i (delay_appearance (member? "Appearance" fields)))
      else if size fields == 1 && contains "Skill" fields
      then modify (modify_account J i (delay_skill (member? "Skill" fields)))
      else if size fields == 1 && contains "Game" fields
      then modify (modify_account J i (delay_game (member? "Game" fields)))
      else (do
        reset_if (leb 2 (size fields) && contains "Appearance" fields) i delay_appearance
        reset_if (leb 2 (size fields) && contains "Skill" fields) i delay_skill
        reset_if (leb 2 (size fields) && contains "Game" fields) i delay_game
        persist_rest upper fields)

  update_of : Json → Option (Account J) → M (Game J) (Unit {0})
  update_of json none = done
  update_of json (some acc) = do
    upper ← lift (upper_name J acc)
    modify (modify_account J acc.id (merged (erase_all J immutable json)))
    settle_update acc.id upper (erase_all J immutable json)

  unfoldable pub account_update : Str → Json → M (Game J) (Unit {0})
  unfolding update_of
  account_update socket_id json =
      if is_object json then (do g ← get; update_of json (account_for J socket_id g)) else done

  -- When the difficulty was last changed, or the account made.
  last_change : ℤ → Account J → M (Game J) ℤ
  last_change now acc = do
    creation ← lift (value_int J "Creation" now acc.fields)
    pure (elim (object_field J "Difficulty" acc.fields) [
      | none ↦ creation
      | some d ↦ elim (field? J int? "LastChange" d) [ none ↦ creation | some t ↦ t ]
    ])

  abbrev pub difficulty : ℤ → ℤ → Json
  difficulty level now = of_obj (("Level", of_int level) ∷ ("LastChange", of_int now) ∷ [])

  difficulty_of : ℤ → ℤ → ℤ → Option (Account J) → M (Game J) (Unit {0})
  unfolding last_change
  difficulty_of delay now level none = done
  difficulty_of delay now level (some acc) = do
    last ← last_change now acc
    if ltb_ℤ (pos 1) level && leb_ℤ now (wrap_64 (last +ℤ delay)) then done else (do
      modify (
          modify_account J acc.id
            (λ a. record a { fields = put "Difficulty" (difficulty level now) a.fields }))
      upper ← lift (upper_name J acc)
      emits J (persist_fields upper (of_obj (("Difficulty", difficulty level now) ∷ []))))

  difficulty_if : ℤ → ℤ → Str → Option ℤ → M (Game J) (Unit {0})
  unfolding difficulty_of
  difficulty_if delay now socket_id none = done
  difficulty_if delay now socket_id (some level) =
      if ltb_ℤ level (pos 0) || ltb_ℤ (pos 3) level
      then done
      else (do g ← get; difficulty_of delay now level (account_for J socket_id g))

  -- `delay` is `relationship_delay_ms`.
  unfoldable pub account_difficulty : ℤ → ℤ → Str → Json → M (Game J) (Unit {0})
  unfolding difficulty_if
  account_difficulty delay now socket_id json = difficulty_if delay now socket_id (int? json)

  abbrev email_result : Str → Bool → M (Game J) (Unit {0})
  email_result socket_id ok = emits J (
      emit socket_id "AccountQueryResult"
        (of_obj (("Query", of_str (codes "EmailUpdate")) ∷ ("Result", of_bool ok) ∷ [])))

  email_account : Str → Str → Str → Option (Account J) → M (Game J) (Option (Str × Str × Str))
  email_account socket_id old new none = email_result socket_id false >> pure none
  email_account socket_id old new (some acc) = do
    upper ← lift (upper_name J acc)
    pure (some (upper, old, new))

  -- The handler of the request: the addresses, and the account's name, if it goes on.
  email_asked : (Str → Bool) → Str → Option Str → Option Str → M (Game J) (Option (Str × Str × Str))
  unfolding email_account
  email_asked email_ok socket_id (some old) (some new) =
      if email_ok new
      then (do g ← get; email_account socket_id old new (account_for J socket_id g))
      else email_result socket_id false >> pure none
  email_asked email_ok socket_id none new = email_result socket_id false >> pure none
  email_asked email_ok socket_id (some old) none = email_result socket_id false >> pure none

  -- `email_ok` is the test of an address by the code's regular expression and length.
  unfoldable pub account_update_email :
      (Str → Bool) → Str → Json → M (Game J) (Option (Str × Str × Str))
  unfolding email_asked email_account
  account_update_email email_ok socket_id json =
      if is_object json
      then email_asked email_ok socket_id (field? J str? "EmailOld" json)
          (field? J str? "EmailNew" json)
      else email_result socket_id false >> pure none

  stored_email : Option Json → Option Str
  stored_email none = some []
  stored_email (some a) = value J str? "Email" [] a

  -- The database has answered with the stored account.
  unfoldable pub email_answered : Str → Str × Str × Str → Option Json → M (Game J) (Unit {0})
  unfolding stored_email
  email_answered socket_id (upper, old, new) current = do
    existing ← lift (stored_email current)
    if not (is_empty existing)
          && not (str_eq (map to_lower (trim old)) (map to_lower (trim existing)))
        then email_result socket_id false
        else (do
          emits J (persist_fields upper (of_obj (("Email", of_str new) ∷ [])))
          email_result socket_id true)
