-- ===== src/Accounts/Lovership/Accept.antt =====
-- What the sender accepts: steps 2, 4 and 6 of `account_lovership` (account_manager.cpp).
pub mod Keeps
use studio_bondage_club.Prelude.{
  ℕ, Bool, true, false, not, ◌&&◌, ◌||◌, Option, none, some, List, [], ◌∷◌, ◌++◌, String, Str,
  codes, ℤ, pos, eq_ℤ, ltb, leb, length, get_elem?, if◌then◌else◌, str_eq, M, ◌>>=◌, ◌>>◌, pure,
  done, lift, get,
}
use studio_bondage_club.Json.{JsonLib, value_arr}
use studio_bondage_club.Accounts.Bond.{
  ◌&?◌, value_is, minus_one, change, reread, tells, can, server_message, both_dict,
}
use studio_bondage_club.Accounts.Lovership.{
  set_at, dating, engagement, wedding, lovers, edit, with_list, lover_index, settle_lovership,
}
use studio_bondage_club.Accounts.Ownership.{bond}
use studio_bondage_club.Chat.Expressions.{sync_character}
use studio_bondage_club.Chat.Roles.{has_member}
use studio_bondage_club.Chat.State.{Account, ChatRoom, Game, member_number, account_name}

module _ (J : JsonLib) (now : ℤ) where
  open J use {Json, null}

  -- The target's list takes the relation in; a new one is added by the first step alone.
  taken_in : Bool → Option ℕ → Json → List Json → List Json
  taken_in add none entry lov = if add then lov ++ entry ∷ [] else lov
  taken_in add (some j) entry lov = set_at j entry lov

  -- The relation is at a stage for both, from now on.
  unfoldable pub begin :
      ℕ
      → String
      → Bool
      → ChatRoom J
      → Account J
      → Account J
      → ℕ
      → Option ℕ
      → Str
      → Str
      → M (Game J) (Unit {0})
  unfolding taken_in
  begin stage message add room acc target i j my_name t_name = do
    change J acc (edit J (set_at i (bond J (member_number J target) t_name now stage)))
    change J target (edit J (taken_in add j (bond J (member_number J acc) my_name now stage)))
    settle_lovership J acc (member_number J acc)
    settle_lovership J target (member_number J target)
    dict ← both_dict J acc target
    server_message J room (member_number J acc) message null dict
    sync_character J room (member_number J acc) (member_number J acc)
    sync_character J room (member_number J acc) (member_number J target)

  abbrev accept_or_tell :
      Bool
      → ℕ
      → String
      → String
      → Bool
      → ChatRoom J
      → Account J
      → Account J
      → ℕ
      → Option ℕ
      → Str
      → Str
      → M (Game J) (Unit {0})
  accept_or_tell accept stage message possible add room acc target i j my_name t_name =
      if accept
      then begin stage message add room acc target i j my_name t_name
      else tells J acc "AccountLovership" (can J (member_number J target) possible)

  -- The next stage was offered by the target to a relation that is at a stage.
  unfoldable pub offered_at : String → ℕ → ℤ → Json → Option Bool
  offered_at key stage n l =
      value_is J "Stage" minus_one (pos stage) l &? value_is J key minus_one n l

  later_steps :
      Bool
      → ChatRoom J
      → Account J
      → Account J
      → ℕ
      → Option ℕ
      → Json
      → Str
      → Str
      → M (Game J) (Unit {0})
  later_steps accept room acc target i j l my_name t_name = do
    fourth ← lift (offered_at (engagement J) 0 (member_number J target) l)
    if fourth
        then accept_or_tell accept 1 "BeginEngagement" "CanBeginEngagement" false room acc target i
            j my_name t_name
        else (do
          sixth ← lift (offered_at (wedding J) 1 (member_number J target) l)
          if sixth
              then accept_or_tell accept 2 "BeginWedding" "CanBeginWedding" false room acc target i
                  j my_name t_name
              else done)

  abbrev is_known : Option ℕ → Bool
  is_known none = false
  is_known (some j) = true

  steps_at :
      Bool
      → ChatRoom J
      → Account J
      → Account J
      → List Json
      → ℕ
      → Option ℕ
      → Option Json
      → M (Game J) (Unit {0})
  unfolding later_steps
  steps_at accept room acc target t_lov i j none = done
  steps_at accept room acc target t_lov i j (some l) = do
    my_name ← lift (account_name J acc)
    t_name ← lift (account_name J target)
    second ← lift (
        value_is J (dating J) minus_one (member_number J target) l
        &? some (ltb (length t_lov) 5 || is_known j))
    if second
        then accept_or_tell accept 0 "BeginDating" "CanBeginDating" true room acc target i j my_name
            t_name
        else later_steps accept room acc target i j l my_name t_name

  accept_from : Str → ChatRoom J → Account J → Account J → ℕ → M (Game J) (Unit {0})
  unfolding steps_at
  accept_from action room acc target i = do
    black ← lift (value_arr J "BlackList" target.fields)
    if has_member J black (member_number J acc) then done else (do
      change J target (with_list J)
      me ← reread J acc
      t ← reread J target
      j ← lift (lover_index J (member_number J acc) (lovers J t.fields))
      steps_at (str_eq action (codes "Accept")) room me t (lovers J t.fields) i j
          (get_elem? (lovers J me.fields) i))

  accept_if : Str → ChatRoom J → Account J → Option (Account J) → ℕ → M (Game J) (Unit {0})
  unfolding accept_from
  accept_if action room acc none i = done
  accept_if action room acc (some target) i = accept_from action room acc target i

  accept_at :
      Str
      → ChatRoom J
      → Account J
      → Option (Account J)
      → List Json
      → Option ℕ
      → M (Game J) (Unit {0})
  unfolding accept_if
  accept_at action room acc target lov none = done
  accept_at action room acc target lov (some i) =
      if leb (length lov) 5 then accept_if action room acc target i else done

  unfoldable pub acceptance :
      ℤ → Str → ChatRoom J → Account J → Option (Account J) → M (Game J) (Unit {0})
  unfolding accept_at
  acceptance n action room acc target = do
    me ← reread J acc
    i ← lift (lover_index J n (lovers J me.fields))
    accept_at action room acc target (lovers J me.fields) i
