-- ===== src/Accounts/Ownership.antt =====
-- `account_ownership` (account_manager.cpp) for a sender whose partner is in the room: breaking and
-- releasing, the public notes, and the four steps from an offered trial to the collar. The release of
-- an absent submissive is in Ownership.Release, and the whole handler in Ownership.Request.
pub mod Release
pub mod Keeps
pub mod Request
use studio_bondage_club.Prelude.{
  ℕ, Bool, true, false, not, ◌&&◌, ◌||◌, Option, none, some, List, [], ◌∷◌, String, Str, codes, ℤ,
  pos, negsuc, leb_ℤ, ◌+ℤ◌, wrap_64, eq_ℤ, take, if◌then◌else◌, str_eq, is_empty, M, ◌>>=◌, ◌>>◌,
  pure, done, lift,
}
use studio_bondage_club.Json.{JsonLib, value, value_arr, field?, object_field}
use studio_bondage_club.Accounts.Bond.{
  ◌&?◌, not?, has_key, value_is, minus_one, delay_over, change, reread, tells, tells_if_connected,
  can, server_message, both_dict, show_self,
}
use studio_bondage_club.Accounts.Registry.{upper_name}
use studio_bondage_club.Chat.Roles.{has_member}
use studio_bondage_club.Chat.State.{
  Account, ChatRoom, Game, persist_fields, member_number, account_name,
}
use studio_bondage_club.Chat.Sync.{emits, source_dict}

module _ (J : JsonLib) where
  open J use {Json, null, of_str, of_int, of_bool, of_obj, str?, int?, member?, put, erase}

  unfoldable pub ownership : Account J → Option Json
  ownership acc = object_field J "Ownership" acc.fields

  -- A test on the object under `Ownership`, which fails if there is none.
  abbrev pub on_ownership : (Json → Option Bool) → Account J → Option Bool
  on_ownership p acc = elim (ownership acc) [ none ↦ some false | some o ↦ p o ]

  abbrev pub released : Json → Json
  released a = put "Ownership" null (put "Owner" (of_str []) a)

  abbrev pub released_fields : List (String × Json)
  released_fields = ("Ownership", null) ∷ ("Owner", of_str []) ∷ []

  abbrev pub cleared : List (String × Json)
  cleared = ("ClearOwnership", of_bool true) ∷ []

  -- The level of the difficulty, if there is one.
  difficulty_level : Account J → Option ℤ
  difficulty_level acc = elim (object_field J "Difficulty" acc.fields) [
    | none ↦ none
    | some d ↦ field? J int? "Level" d
  ]

  -- A trial can be broken at any time, a collar after the delay, but not at the extreme difficulty.
  unfoldable pub may_break : ℤ → ℤ → Account J → Bool
  unfolding difficulty_level
  may_break delay now acc = elim (ownership acc) [
    | none ↦ false
    | some o ↦ elim (field? J int? "Stage" o) [
      | none ↦ false
      | some stage ↦ elim (field? J int? "Start" o) [
        | none ↦ false
        | some start ↦
            (eq_ℤ stage (pos 0) || leb_ℤ (wrap_64 (start +ℤ delay)) now)
            && elim (difficulty_level acc) [
              | none ↦ true
              | some level ↦ leb_ℤ level (pos 2) || eq_ℤ stage (pos 0)
            ]
      ]
    ]
  ]

  unfoldable pub break_ownership : Account J → M (Game J) (Unit {0})
  break_ownership acc = do
    change J acc released
    upper ← lift (upper_name J acc)
    emits J (persist_fields upper (of_obj released_fields))
    tells J acc "AccountOwnership" cleared

  -- The notes of a request, cut at the limit; an empty text and no text remove them.
  note_of : ℕ → Option Str → Json → Json
  note_of limit none o = erase "Notes" o
  note_of limit (some []) o = erase "Notes" o
  note_of limit (some (c ∷ s)) o = put "Notes" (of_str (take limit (c ∷ s))) o

  unfoldable pub update_notes : ℕ → Json → ChatRoom J → Account J → Json → M (Game J) (Unit {0})
  unfolding note_of
  update_notes limit json room target o =
      let noted = note_of limit (field? J str? "Notes" json) o in
      do
        change J target (put "Ownership" noted)
        owner ← lift (value J str? "Owner" [] target.fields)
        upper ← lift (upper_name J target)
        emits J
            (persist_fields upper (of_obj (("Ownership", noted) ∷ ("Owner", of_str owner) ∷ [])))
        tells_if_connected J target "AccountOwnership"
            (("Ownership", noted) ∷ ("Owner", of_str owner) ∷ [])
        show_self J room target

  is_trial : Json → Bool
  is_trial o = elim (field? J int? "Stage" o) [ none ↦ true | some n ↦ eq_ℤ n (pos 0) ]

  unfoldable pub release_target : ChatRoom J → Account J → Account J → Json → M (Game J) (Unit {0})
  unfolding is_trial
  release_target room acc target o = do
    change J target released
    upper ← lift (upper_name J target)
    emits J (persist_fields upper (of_obj released_fields))
    tells_if_connected J target "AccountOwnership" cleared
    dict ← both_dict J acc target
    server_message J room (member_number J acc)
        (if is_trial o then "EndOwnershipTrial" else "EndOwnership") null dict
    show_self J room target

  -- Step 1: `Ownership` names no owner, and the sender is somebody else.
  unfoldable pub may_offer_trial : ℤ → Account J → Bool
  may_offer_trial my target =
      not (elim (ownership target) [ none ↦ false | some o ↦ has_key J "MemberNumber" o ])
      && not (eq_ℤ my (member_number J target))

  abbrev pub start_offer : ℤ → Json
  start_offer my = of_obj (("StartTrialOfferedByMemberNumber", of_int my) ∷ [])

  unfoldable pub offer_trial : Bool → ChatRoom J → Account J → Account J → M (Game J) (Unit {0})
  offer_trial propose room acc target =
      if propose
      then (do
        change J target
            (λ a. put "Ownership" (start_offer (member_number J acc)) (put "Owner" (of_str []) a))
        dict ← source_dict J acc
        server_message J room (member_number J acc) "OfferStartTrial"
            (of_int (member_number J target)) dict)
      else tells J acc "AccountOwnership" (can J (member_number J target) "CanOfferStartTrial")

  -- Step 3: the trial with the sender has lasted for the delay, and its end is not offered yet.
  unfoldable pub may_offer_end : ℤ → ℤ → ℤ → Account J → Option Bool
  may_offer_end delay now my target =
      on_ownership
        (λ o.
          value_is J "MemberNumber" minus_one my o
          &? some (not (has_key J "EndTrialOfferedByMemberNumber" o))
          &? value_is J "Stage" minus_one (pos 0) o
          &? some (delay_over J delay now o))
        target

  end_offered : ℤ → Option Json → Json → Json
  end_offered my none a = a
  end_offered my (some o) a = put "Ownership" (put "EndTrialOfferedByMemberNumber" (of_int my) o) a

  unfoldable pub offer_end : Bool → ChatRoom J → Account J → Account J → M (Game J) (Unit {0})
  unfolding end_offered
  offer_end propose room acc target =
      if propose
      then (do
        change J target (end_offered (member_number J acc) (ownership target))
        dict ← source_dict J acc
        server_message J room (member_number J acc) "OfferEndTrial" null dict)
      else tells J acc "AccountOwnership" (can J (member_number J target) "CanOfferEndTrial")

  -- The two offers, to a target that has no other owner and does not blacklist the sender.
  unfoldable pub propose_steps :
      ℤ → ℤ → Str → ChatRoom J → Account J → Account J → M (Game J) (Unit {0})
  propose_steps delay now action room acc target = do
    black ← lift (value_arr J "BlackList" target.fields)
    if has_member J black (member_number J acc) then done else (do
      owner ← lift (value J str? "Owner" [] target.fields)
      if is_empty owner
          then (do
            if may_offer_trial (member_number J acc) target
                then offer_trial (str_eq action (codes "Propose")) room acc target
                else done
            t ← reread J target
            ready ← lift (may_offer_end delay now (member_number J acc) t)
            if ready then offer_end (str_eq action (codes "Propose")) room acc t else done)
          else done)

  abbrev pub bond : ℤ → Str → ℤ → ℕ → Json
  bond owner name now stage = of_obj (
      ("MemberNumber", of_int owner)
      ∷ ("Name", of_str name)
      ∷ ("Start", of_int now)
      ∷ ("Stage", of_int (pos stage))
      ∷ [])

  -- Steps 2 and 4: the sender takes the target as the owner, with `Owner` set to a name or to nothing.
  unfoldable pub become_owned :
      ℤ → ℕ → String → ChatRoom J → Account J → Account J → Str → Str → M (Game J) (Unit {0})
  become_owned now stage message room acc target owner name =
      let entry = bond (member_number J target) name now stage in
      do
        change J acc (put "Ownership" entry)
        upper ← lift (upper_name J acc)
        emits J
            (persist_fields upper (of_obj (("Ownership", entry) ∷ ("Owner", of_str owner) ∷ [])))
        tells J acc "AccountOwnership" (("Ownership", entry) ∷ ("Owner", of_str owner) ∷ [])
        dict ← source_dict J acc
        server_message J room (member_number J acc) message null dict
        show_self J room acc

  unfoldable pub accept_trial :
      ℤ → Bool → ChatRoom J → Account J → Account J → M (Game J) (Unit {0})
  accept_trial now accept room acc target =
      if accept
      then (do
        change J acc (put "Owner" (of_str []))
        name ← lift (account_name J target)
        become_owned now 0 "StartTrial" room acc target [] name)
      else tells J acc "AccountOwnership" (can J (member_number J target) "CanStartTrial")

  unfoldable pub accept_collar :
      ℤ → Bool → ChatRoom J → Account J → Account J → M (Game J) (Unit {0})
  accept_collar now accept room acc target =
      if accept
      then (do
        name ← lift (account_name J target)
        change J acc (put "Owner" (of_str name))
        become_owned now 1 "EndTrial" room acc target name name)
      else tells J acc "AccountOwnership" (can J (member_number J target) "CanEndTrial")

  unfoldable pub trial_offered : ℤ → Account J → Option Bool
  trial_offered n acc = on_ownership (value_is J "StartTrialOfferedByMemberNumber" minus_one n) acc

  unfoldable pub collar_offered : ℤ → Account J → Option Bool
  collar_offered n acc =
      on_ownership
        (λ o.
          value_is J "Stage" minus_one (pos 0) o
          &? value_is J "EndTrialOfferedByMemberNumber" minus_one n o)
        acc

  -- The sender has no owner yet, or the target is the owner.
  unfoldable pub may_accept : ℤ → Account J → Option Bool
  may_accept n acc =
      on_ownership
        (λ o.
          if has_key J "MemberNumber" o
          then value_is J "MemberNumber" (negsuc 1) n o
          else some true)
        acc

  unfoldable pub accept_steps : ℤ → Str → ChatRoom J → Account J → Account J → M (Game J) (Unit {0})
  accept_steps now action room acc target = do
    free ← lift (may_accept (member_number J target) acc)
    if free
        then (do
          black ← lift (value_arr J "BlackList" target.fields)
          if has_member J black (member_number J acc) then done else (do
            start ← lift (trial_offered (member_number J target) acc)
            if start
                then accept_trial now (str_eq action (codes "Accept")) room acc target
                else done
            me ← reread J acc
            collar ← lift (collar_offered (member_number J target) me)
            if collar
                then accept_collar now (str_eq action (codes "Accept")) room me target
                else done))
        else done
