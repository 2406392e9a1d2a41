-- ===== src/Chat/Expressions/Shown.antt =====
-- `sync_character` (chatroom_manager.cpp) sends a message and changes neither accounts nor rooms.
use studio_bondage_club.Prelude.{Option, none, some, List, Str, ℤ, Keeps, Keeps-done}
use studio_bondage_club.Json.{JsonLib}
use studio_bondage_club.Chat.Expressions
use studio_bondage_club.Chat.State.{Account, ChatRoom}
use studio_bondage_club.Chat.Sync.Frame.{Of, message_rules, Keeps-char_shared_data}

module _ (J : JsonLib) (Q : List (Account J) → List Str → List (ChatRoom J) → Type 0) where
  Keeps-show_character :
      (room : ChatRoom J) (n : ℤ) (ms : List (Account J)) (t s : Option (Account J))
      → Keeps (Of J Q) (Expressions.show_character J room n ms t s)
  unfolding Expressions.show_character
  Keeps-show_character room n ms (some t) (some s) =
      search (message_rules, Keeps-char_shared_data) depth 9
  Keeps-show_character room n ms none s = Keeps-done (Of J Q)
  Keeps-show_character room n ms (some t) none = Keeps-done (Of J Q)

  pub Keeps-sync_character :
      (room : ChatRoom J) (s t : ℤ) → Keeps (Of J Q) (Expressions.sync_character J room s t)
  unfolding Expressions.sync_character
  Keeps-sync_character room s t = search (message_rules, Keeps-show_character)
