-- ===== src/Accounts/Lovership/Request/Bystander.antt =====
-- Whom `account_lovership` (account_manager.cpp) can change.
use studio_bondage_club.Prelude.{◌≡◌, false, some, List, Str, ℤ, eq_ℤ, str_eq, Keeps}
use studio_bondage_club.Json.{JsonLib, field?}
use studio_bondage_club.Accounts.Bond.Bystander.{Same, Other, Same-Allows, by_number-Other}
use studio_bondage_club.Accounts.Lovership.Request.{account_lovership}
use studio_bondage_club.Accounts.Lovership.Request.Keeps.{Keeps-account_lovership}
use studio_bondage_club.Chat.State.{Account, ChatRoom, member_number}
use studio_bondage_club.Chat.Sync.Frame.{Of}

module _ (J : JsonLib) (delay now : ℤ) where
  -- A lovership request, whatever it asks for and even if the handler throws, leaves the list of
  -- sessions and the rooms as they are, and every account but the sender's and those whose member
  -- number is the number in the request.
  pub account_lovership-bystander :
      (a : Account J) (sockets : List Str) (rooms : List (ChatRoom J)) (socket_id : Str)
      (json : J.Json)
      → str_eq socket_id a.id ≡ false
      → ((n : ℤ)
          → field? J J.int? "MemberNumber" json ≡ some n
          → eq_ℤ (member_number J a) n ≡ false)
      → Keeps (Of J (Same J a sockets rooms)) (account_lovership J delay now socket_id json)
  account_lovership-bystander a sockets rooms socket_id json other unnamed =
      Keeps-account_lovership J delay now (Same J a sockets rooms) (Other J a sockets rooms)
        (Same-Allows J a sockets rooms) socket_id json other
        (λ n e. record {
          named =
              λ g ids t q found. by_number-Other J a sockets rooms n g ids t (unnamed n e) q found;
        })
