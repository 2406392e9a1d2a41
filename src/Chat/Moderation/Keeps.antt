-- ===== src/Chat/Moderation/Keeps.antt =====
-- The actions of an administrator (the end of `chat_room_admin` in chatroom_manager.cpp) keep the
-- rooms valid.
use studio_bondage_club.Prelude.{
  ℕ, zero, suc, ◌≡◌, refl, false, String, List, [], ◌∷◌, Str, ℤ, arith, is_nil, length, Keeps,
  Keeps->>, Keeps->>=, Keeps-lift->>=, M,
}
use studio_bondage_club.Json.{JsonLib, value}
use studio_bondage_club.Chat.State.{Account, ChatRoom, Game}
use studio_bondage_club.Chat.Join.Keeps.{Valid, Keeps-modify_room, Keeps-leaving, Keeps-when_socket}
use studio_bondage_club.Chat.Moderation
use studio_bondage_club.Chat.Moderation.{
  Action, ban, kick, move_left, move_right, shuffle, promote, demote, whitelist, unwhitelist, unban,
  other, swap_next, swap_ids,
}
use studio_bondage_club.Chat.Sync.Frame.{message_rules}
use studio_bondage_club.Chat.Valid.{IsMild, is_sound}

swap_next-is_nil : {A : Type 0} (i : ℕ) (xs : List A) → is_nil (swap_next i xs) ≡ is_nil xs
unfolding swap_next
swap_next-is_nil zero (x ∷ y ∷ xs) = refl
swap_next-is_nil zero (x ∷ []) = refl
swap_next-is_nil zero [] = refl
swap_next-is_nil (suc i) (x ∷ xs) = refl
swap_next-is_nil (suc i) [] = refl

pub swap_ids-is_nil : (a b : Str) (xs : List Str) → is_nil (swap_ids a b xs) ≡ is_nil xs
unfolding swap_ids
swap_ids-is_nil a b [] = refl
swap_ids-is_nil a b (x ∷ xs) = refl

pub is_nil_of_length : (xs ys : List Str) → length xs ≡ length ys → is_nil xs ≡ is_nil ys
is_nil_of_length [] [] h = refl
is_nil_of_length (x ∷ xs) (y ∷ ys) h = refl
is_nil_of_length [] (y ∷ ys) h = absurd (omega arith)
is_nil_of_length (x ∷ xs) [] h = absurd (omega arith)

module _ (J : JsonLib) where
  with_ban-IsMild : (f : List J.Json → List J.Json) → IsMild J (Moderation.with_ban J f)
  unfolding is_sound
  with_ban-IsMild f = record { id_kept = λ r. refl; name_kept = λ r. refl; sound_kept = λ r h. h }

  with_admin-IsMild : (f : List J.Json → List J.Json) → IsMild J (Moderation.with_admin J f)
  unfolding is_sound
  with_admin-IsMild f = record { id_kept = λ r. refl; name_kept = λ r. refl; sound_kept = λ r h. h }

  with_whitelist-IsMild : (f : List J.Json → List J.Json) → IsMild J (Moderation.with_whitelist J f)
  unfolding is_sound
  with_whitelist-IsMild f = record {
    id_kept = λ r. refl;
    name_kept = λ r. refl;
    sound_kept = λ r h. h;
  }

  pub with_accounts-IsMild :
      (f : List Str → List Str)
      → ((xs : List Str) → is_nil (f xs) ≡ is_nil xs)
      → IsMild J (Moderation.with_accounts J f)
  unfolding is_sound
  with_accounts-IsMild f h = record {
    id_kept = λ r. refl;
    name_kept = λ r. refl;
    sound_kept = λ r s. ground (arith, h r.accounts);
  }

  -- A mild change in place, and what follows it.
  pub Keeps-changing :
      (f : ChatRoom J → ChatRoom J) (room : ChatRoom J) (k : ChatRoom J → M (Game J) (Unit {0}))
      → IsMild J f
      → Keeps (Valid J) (k (f room))
      → Keeps (Valid J) (Moderation.changing J f room k)
  Keeps-changing f room k m h = Keeps->> (Valid J) (Keeps-modify_room J room.id f m) h

  Keeps-source_and_target :
      (acc target : Account J) → Keeps (Valid J) (Moderation.source_and_target J acc target)
  unfolding Moderation.source_and_target
  Keeps-source_and_target acc target = search message_rules

  Keeps-target_and_source :
      (acc target : Account J) → Keeps (Valid J) (Moderation.target_and_source J acc target)
  unfolding Moderation.target_and_source
  Keeps-target_and_source acc target = search message_rules

  Keeps-announce :
      (acc target : Account J) (text : String) (room : ChatRoom J)
      → Keeps (Valid J) (Moderation.announce J acc target text room)
  unfolding Moderation.announce
  Keeps-announce acc target text room = search (message_rules, Keeps-target_and_source)

  Keeps-moved :
      (json : J.Json) (acc target : Account J) (text : String) (room : ChatRoom J)
      → Keeps (Valid J) (Moderation.moved J json acc target text room)
  unfolding Moderation.moved
  Keeps-moved json acc target text room =
      Keeps->>= (Valid J) (Keeps-target_and_source acc target) λ d.
        Keeps-lift->>= (Valid J) (value J J.bool? "Publish" false json) λ p. search message_rules

  module _ (perm : List Str → List Str) (h : (xs : List Str) → length (perm xs) ≡ length xs)
      (json : J.Json) (acc : Account J) (room : ChatRoom J) (n : ℤ) where
    perm-IsMild : IsMild J (Moderation.with_accounts J perm)
    perm-IsMild = with_accounts-IsMild perm (λ xs. is_nil_of_length _ _ (h xs))

    pub Keeps-act_on :
        (i : ℕ) (target : Account J) (action : Action)
        → Keeps (Valid J) (Moderation.act_on J perm json acc room n i target action)
    unfolding Moderation.act_on
    Keeps-act_on i target ban =
        search
          (
            message_rules, Keeps-changing, with_ban-IsMild, Keeps-when_socket,
            Keeps-source_and_target, Keeps-leaving,
          )
          depth 9
    Keeps-act_on i target kick =
        search (message_rules, Keeps-when_socket, Keeps-source_and_target, Keeps-leaving)
    Keeps-act_on i target move_left =
        search (message_rules, Keeps-changing, Keeps-moved, with_accounts-IsMild, swap_next-is_nil)
    Keeps-act_on i target move_right =
        search (message_rules, Keeps-changing, Keeps-moved, with_accounts-IsMild, swap_next-is_nil)
    Keeps-act_on i target shuffle = search (message_rules, Keeps-changing, perm-IsMild) depth 9
    Keeps-act_on i target promote =
        search (message_rules, Keeps-changing, Keeps-announce, with_admin-IsMild)
    Keeps-act_on i target demote =
        search (message_rules, Keeps-changing, Keeps-announce, with_admin-IsMild)
    Keeps-act_on i target whitelist =
        search (message_rules, Keeps-changing, Keeps-announce, with_whitelist-IsMild)
    Keeps-act_on i target unwhitelist =
        search (message_rules, Keeps-changing, Keeps-announce, with_whitelist-IsMild)
    Keeps-act_on i target unban = search message_rules
    Keeps-act_on i target other = search message_rules

  pub Keeps-act_absent :
      (acc : Account J) (room : ChatRoom J) (n : ℤ) (action : Action)
      → Keeps (Valid J) (Moderation.act_absent J acc room n action)
  unfolding Moderation.act_absent
  Keeps-act_absent acc room n ban = search (message_rules, Keeps-changing, with_ban-IsMild)
  Keeps-act_absent acc room n unban = search (message_rules, Keeps-changing, with_ban-IsMild)
  Keeps-act_absent acc room n whitelist =
      search (message_rules, Keeps-changing, with_whitelist-IsMild)
  Keeps-act_absent acc room n unwhitelist =
      search (message_rules, Keeps-changing, with_whitelist-IsMild)
  Keeps-act_absent acc room n _ = search message_rules
