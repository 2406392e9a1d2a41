-- ===== src/Accounts/Lovership/Break.antt =====
-- The end of a relation in `account_lovership` (account_manager.cpp): with a computer character at
-- once, and with another player after the database has answered.
pub mod Keeps
use studio_bondage_club.Prelude.{
  ℕ, Bool, true, false, not, ◌&&◌, ◌||◌, Option, none, some, List, [], ◌∷◌, ◌++◌, String, Str,
  codes, ℤ, pos, ◌+ℤ◌, wrap_64, leb_ℤ, ltb_ℤ, eq_ℤ, get_elem?, reverse, find_if, if◌then◌else◌,
  str_eq, M, ◌>>=◌, ◌>>◌, pure, done, lift, get,
}
use studio_bondage_club.Json.{JsonLib, field?}
use studio_bondage_club.Accounts.Bond.{
  value_is, minus_one, change, reread, tells_if_connected, show_self,
}
use studio_bondage_club.Accounts.Lovership.{
  erase_at, index_of, lovers, edit, with_list, update_lovership, settle_lovership,
}
use studio_bondage_club.Accounts.Registry.{get_by_member}
use studio_bondage_club.Chat.State.{Account, ChatRoom, Game, room_of}

-- What the coroutine captures: the sender, its number and the partner's.
pub record BreakJob : Type 0 where
  pub sender : Str
  pub my : ℤ
  pub target_member : ℤ

module _ (J : JsonLib) where
  open J use {Json, of_arr, str?, int?, arr?}

  same_name : Option Str → Option Str → Bool
  same_name (some a) (some b) = str_eq a b
  same_name none b = false
  same_name (some a) none = false

  -- A relation with the number, or without a number and with the name in the request.
  unfoldable pub is_meant : ℤ → Option Str → Json → Bool
  unfolding same_name
  is_meant n name l = elim (field? J int? "MemberNumber" l) [
    | none ↦ same_name (field? J str? "Name" l) name
    | some m ↦ eq_ℤ m n
  ]

  unfoldable pub broken_index : ℤ → Option Str → List Json → Option (Option ℕ)
  broken_index n name lov = index_of (λ l. some (is_meant n name l)) lov

  -- The stage and the start of a relation, if both are numbers.
  stage_and_start : Option ℤ → Option ℤ → Option (ℤ × ℤ)
  stage_and_start (some stage) (some start) = some (stage, start)
  stage_and_start none s = none
  stage_and_start (some stage) none = none

  unfoldable pub dated : Option Json → Option (ℤ × ℤ)
  unfolding stage_and_start
  dated none = none
  dated (some l) = stage_and_start (field? J int? "Stage" l) (field? J int? "Start" l)

  -- What the request leads to: the rest of the coroutine, nothing more, or the steps in the room.
  pub data Ending : Type 0 where
    waits : BreakJob → Ending
    over : Ending
    goes_on : Ending

  drop_at : Option ℕ → List Json → List Json
  drop_at none lov = lov
  drop_at (some i) lov = erase_at i lov

  break_npc : Account J → ℤ → Option ℕ → M (Game J) Ending
  unfolding drop_at
  break_npc acc my i = do change J acc (edit J (drop_at i)); settle_lovership J acc my; pure over

  -- A wedding can be broken after the delay alone.
  break_at : ℤ → ℤ → Account J → ℤ → ℤ → Option Str → Option ℕ → Option (ℤ × ℤ) → M (Game J) Ending
  unfolding break_npc
  break_at delay now acc my n name i (some (stage, start)) =
      if not (eq_ℤ stage (pos 2)) || leb_ℤ (wrap_64 (start +ℤ delay)) now
      then pure (waits (record { sender = acc.id; my = my; target_member = n }))
      else pure goes_on
  break_at delay now acc my n none i none = pure goes_on
  break_at delay now acc my n (some name) i none =
      if ltb_ℤ n (pos 0) then break_npc acc my i else pure goes_on

  at_index : List Json → Option ℕ → Option Json
  at_index lov none = none
  at_index lov (some i) = get_elem? lov i

  unfoldable pub break_lovership : ℤ → ℤ → Account J → ℤ → ℤ → Option Str → M (Game J) Ending
  unfolding break_at at_index
  break_lovership delay now acc my n name = do
    i ← lift (broken_index n name (lovers J acc.fields))
    break_at delay now acc my n name i (dated (at_index (lovers J acc.fields) i))

  -- The partner is online.
  in_room : Account J → Option (ChatRoom J) → M (Game J) (Unit {0})
  in_room other none = lift none
  in_room other (some room) = show_self J room other

  shown : Account J → Option Str → M (Game J) (Unit {0})
  unfolding in_room
  shown other none = done
  shown other (some rid) = do g ← get; in_room other (room_of J (some rid) g)

  partner_loses : List Json → Option (Account J) → M (Game J) (Unit {0})
  unfolding shown
  partner_loses p none = done
  partner_loses p (some other) = do
    change J other (edit J (λ old. p))
    tells_if_connected J other "AccountLovership" (("Lovership", of_arr p) ∷ [])
    shown other other.chat_room

  partner_at : ℤ → List Json → Option ℕ → M (Game J) (Unit {0})
  unfolding partner_loses
  partner_at n p none = done
  partner_at n p (some i) = do
    g ← get
    partner_loses (erase_at i p) (get_by_member J n g)
    kept ← update_lovership J (erase_at i p) n none
    done

  -- The list that is stored for the partner.
  partner_stored : BreakJob → Option (List Json) → M (Game J) (Unit {0})
  unfolding partner_at
  partner_stored job none = done
  partner_stored job (some p) = do
    i ← lift (index_of (value_is J "MemberNumber" minus_one job.my) p)
    partner_at job.target_member p i

  -- The last relation with the number is taken out.
  unfoldable pub without_last : ℤ → List Json → Option (List Json)
  unfolding drop_at
  without_last n lov = elim (index_of (value_is J "MemberNumber" minus_one n) (reverse lov)) [
    | none ↦ none
    | some i ↦ some (reverse (drop_at i (reverse lov)))
  ]

  sender_loses : BreakJob → Option (Account J) → M (Game J) (Unit {0})
  sender_loses job none = done
  sender_loses job (some acc) = do
    change J acc (with_list J)
    me ← reread J acc
    lov ← lift (without_last job.target_member (lovers J me.fields))
    change J acc (edit J (λ old. lov))
    settle_lovership J acc job.my

  stored_list : Option Json → Option (List Json)
  stored_list none = none
  stored_list (some a) = field? J arr? "Lovership" a

  unfoldable pub break_answered : BreakJob → Option Json → M (Game J) (Unit {0})
  unfolding partner_stored sender_loses stored_list
  break_answered job result = do
    partner_stored job (stored_list result)
    if eq_ℤ job.target_member job.my
        then done
        else (do g ← get; sender_loses job (find_if (λ a. str_eq a.id job.sender) g.accounts))
