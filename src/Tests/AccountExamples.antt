-- ===== src/Tests/AccountExamples.antt =====
-- The theorems about accounts (server/gameserver/game), applied at concrete inputs.
use studio_bondage_club.Prelude.{
  ◌≡◌, refl, Bool, true, false, some, List, [], ◌∷◌, Str, codes, ℤ, pos, negsuc, eq_ℤ, str_eq,
  arith, Keeps, all, ℕ, none, M,
}
use studio_bondage_club.Json.{field?}
use studio_bondage_club.Accounts.Bond.Bystander.{Same}
use studio_bondage_club.Accounts.Desk
use studio_bondage_club.Accounts.Desk.{
  Desk, Waiting, password_reset_process, account_create, from_address,
}
use studio_bondage_club.Accounts.Desk.Limit.{Bounded, account_create-Bounded}
use studio_bondage_club.Accounts.Desk.Reset.{Outcome, password_reset_process-cases}
use studio_bondage_club.Accounts.Desk.Runner.{
  Pool, IsSingle, IsStuck, arrive, start, arrives, Serves-IsSingle, Serves-IsStuck,
}
use studio_bondage_club.Accounts.Login.Process.{World, turn, run_login_queue}
use studio_bondage_club.Accounts.Login.Process.Order.{in_order, ended, run_login_queue-in_order}
use studio_bondage_club.Accounts.Lovership.{stripped}
use studio_bondage_club.Accounts.Lovership.Stripped.{has_no_offer, stripped-settles}
use studio_bondage_club.Accounts.Lovership.Request.{account_lovership}
use studio_bondage_club.Accounts.Lovership.Request.Bystander.{account_lovership-bystander}
use studio_bondage_club.Accounts.Merge.{merge_set_fields, path_of}
use studio_bondage_club.Accounts.Merge.Other.{Avoids, merge_set_fields-other}
use studio_bondage_club.Accounts.Ownership.Request.{account_ownership}
use studio_bondage_club.Accounts.Ownership.Request.Bystander.{account_ownership-bystander}
use studio_bondage_club.Accounts.Registry.{register, get_by_member}
use studio_bondage_club.Accounts.Registry.Lookup.{register-lookups}
use studio_bondage_club.Accounts.Requests
use studio_bondage_club.Accounts.Requests.{AccountRequest, update, on_request}
use studio_bondage_club.Accounts.Requests.Keeps.{Runs-IsValid}
use studio_bondage_club.Chat.State.{Game, account_for, member_number}
use studio_bondage_club.Chat.Sync.Frame.{Of}
use studio_bondage_club.Chat.Valid.{IsValid}
use studio_bondage_club.Tests.ChatExamples.{
  settings, show_number, unshuffled, length-unshuffled, ann, no_rooms, no_rooms-IsValid,
}
use studio_bondage_club.Tests.JsonExample.{json_example, Value, v_obj, v_str, v_int}

abbrev any_email : Str → Bool
any_email s = true

abbrev week : ℤ
week = pos 604800000

abbrev title : Value
title = v_obj (("Title", v_str (codes "Maid")) ∷ [])

abbrev titled : Game json_example
titled = on_request json_example week 4000 any_email (codes "s1") (update title) no_rooms

Runs-IsValid_example : IsValid json_example titled.rooms
Runs-IsValid_example =
    Runs-IsValid json_example settings show_number unshuffled week 4000 any_email length-unshuffled
      no_rooms titled (Requests.account Requests.start (codes "s1") (update title)) no_rooms-IsValid

abbrev propose : Value
propose = v_obj (("MemberNumber", v_int (pos 5)) ∷ ("Action", v_str (codes "Propose")) ∷ [])

ann-other : str_eq (codes "s2") ann.id ≡ false
unfolding str_eq
ann-other = refl

ann-unnamed :
    (n : ℤ)
    → field? json_example json_example.int? "MemberNumber" propose ≡ some n
    → eq_ℤ (member_number json_example ann) n ≡ false
unfolding field? member_number
ann-unnamed (pos m) e = ground (arith, e)
ann-unnamed (negsuc m) e = absurd (ground (arith, e))

account_ownership-bystander_example :
    Keeps
      (Of json_example (Same json_example ann (codes "s1" ∷ []) []))
      (account_ownership json_example week (pos 9) 4000 (codes "s2") propose)
account_ownership-bystander_example =
    account_ownership-bystander json_example week (pos 9) 4000 ann (codes "s1" ∷ []) [] (codes "s2")
      propose ann-other ann-unnamed

abbrev empty_desk : Desk json_example
empty_desk = record {
  creations = [];
  queue = [];
  running = false;
  resets = [];
  next_reset = pos 0;
  sent = [];
}

abbrev limits : Desk.Settings
limits = record {
  name_max_len = 20;
  create_per_day = pos 2;
  create_per_hour = pos 1;
  queue_threshold = pos 3;
  reset_throttle_ms = pos 5000;
}

abbrev bea : Waiting
bea = record { socket_id = codes "s3"; upper_name = codes "BEA"; password = codes "pw" }

abbrev cleo : Waiting
cleo = record { socket_id = codes "s4"; upper_name = codes "CLEO"; password = codes "pw" }

abbrev idle : Pool json_example
idle = record { desk = empty_desk; taking = 0; working = 0; failed = 0 }

idle-IsSingle : IsSingle json_example idle
idle-IsSingle = record { alive = refl; served = λ h. absurd (ground (arith, h)) }

Serves-IsSingle_example : IsSingle json_example (arrive json_example bea idle)
Serves-IsSingle_example =
    Serves-IsSingle json_example idle (arrive json_example bea idle) (arrives start bea)
      idle-IsSingle

abbrev lost : Pool json_example
lost = record {
  desk = record empty_desk { queue = bea ∷ []; running = true };
  taking = 0;
  working = 0;
  failed = 1;
}

lost-IsSingle : IsSingle json_example lost
lost-IsSingle = record { alive = refl; served = λ h. refl }

Serves-IsStuck_example : IsStuck json_example lost.desk.queue (arrive json_example cleo lost)
Serves-IsStuck_example =
    Serves-IsStuck json_example lost (arrive json_example cleo lost) (arrives start cleo)
      lost-IsSingle refl

abbrev same_key : Str → Str → ℕ → Str
same_key password salt rounds = password

abbrev unknown_account : World json_example
unknown_account = record {
  waits = true;
  stays = true;
  stored = some none;
  next_number = none;
  now = pos 9;
  updated = some tt;
}

abbrev refused : Waiting → M (Game json_example) (Unit {0})
refused w = turn json_example same_key unknown_account w

run_login_queue-in_order_example :
    run_login_queue json_example refused 2 (record empty_desk { queue = bea ∷ cleo ∷ [] }) no_rooms
    ≡ ended json_example refused empty_desk
        (in_order json_example refused (bea ∷ cleo ∷ []) no_rooms)
run_login_queue-in_order_example =
    run_login_queue-in_order json_example refused 1 empty_desk bea (cleo ∷ []) no_rooms
      (omega arith)

abbrev wanted_account : Value
wanted_account = v_obj (
    ("Name", v_str (codes "Bea"))
    ∷ ("AccountName", v_str (codes "bea"))
    ∷ ("Password", v_str (codes "pw"))
    ∷ ("Email", v_str [])
    ∷ [])

account_create-Bounded_example : Keeps (Bounded json_example 2) (
    account_create json_example any_email limits
      (pos 9)
      (codes "s3")
      (codes "10.0.0.1")
      wanted_account)
account_create-Bounded_example =
    account_create-Bounded json_example any_email limits 2 (pos 9) (codes "s3") (codes "10.0.0.1")
      wanted_account refl

abbrev new_password : Value
new_password = v_obj (
    ("AccountName", v_str (codes "BEA"))
    ∷ ("ResetNumber", v_str (codes "77"))
    ∷ ("NewPassword", v_str (codes "secret"))
    ∷ [])

abbrev with_code : Desk json_example
with_code = record empty_desk { resets = (codes "BEA", codes "77") ∷ [] }

password_reset_process-cases_example :
    Outcome json_example limits with_code.resets
      (password_reset_process json_example limits (codes "s3") new_password with_code).0
    × ((password_reset_process json_example limits (codes "s3") new_password with_code).1.resets
        ≡ with_code.resets)
password_reset_process-cases_example =
    password_reset_process-cases json_example limits (codes "s3") new_password with_code

title-Avoids : Avoids json_example "Difficulty" (json_example.items title)
unfolding path_of
title-Avoids = (λ e. cc, tt)

merge_set_fields-other_example :
    json_example.member? "Difficulty" (merge_set_fields json_example ann.fields title)
    ≡ json_example.member? "Difficulty" ann.fields
merge_set_fields-other_example =
    merge_set_fields-other json_example "Difficulty" title ann.fields title-Avoids

register-lookups_example :
    (account_for json_example ann.id (register json_example ann (pos 1) no_rooms) ≡ some ann)
    × (get_by_member json_example (pos 1) (register json_example ann (pos 1) no_rooms) ≡ some ann)
    × ((j : Str)
        → str_eq j ann.id ≡ false
        → account_for json_example j (register json_example ann (pos 1) no_rooms)
          ≡ account_for json_example j no_rooms)
register-lookups_example = register-lookups json_example ann (pos 1) no_rooms

account_lovership-bystander_example :
    Keeps
      (Of json_example (Same json_example ann (codes "s1" ∷ []) []))
      (account_lovership json_example week (pos 9) (codes "s2") propose)
account_lovership-bystander_example =
    account_lovership-bystander json_example week (pos 9) ann (codes "s1" ∷ []) [] (codes "s2")
      propose ann-other ann-unnamed

abbrev offered : List Value
offered =
    v_obj (("BeginDatingOfferedByMemberNumber", v_int (pos 5)) ∷ [])
    ∷ v_obj (("MemberNumber", v_int (pos 7)) ∷ ("Stage", v_int (pos 1)) ∷ [])
    ∷ []

stripped-settles_example :
    (kept : List Value) × (stripped json_example offered ≡ some kept)
    × (all (has_no_offer json_example) kept ≡ true)
stripped-settles_example = stripped-settles json_example offered refl
