-- ===== src/Accounts/Bond.antt =====
-- What `account_ownership` and `account_lovership` (account_manager.cpp) share: tests on the objects
-- under `Ownership` and `Lovership`, and the reading of an account again after it was changed.
pub mod Frame
pub mod Bystander
use studio_bondage_club.Prelude.{
  Bool, true, false, not, ◌&&◌, ◌||◌, Option, none, some, List, [], ◌∷◌, String, Str, codes, ℤ,
  negsuc, ◌+ℤ◌, wrap_64, leb_ℤ, eq_ℤ, find_if, if◌then◌else◌, str_eq, M, ◌>>=◌, ◌>>◌, pure, done,
  lift, get, modify,
}
use studio_bondage_club.Json.{JsonLib, value_int, field?}
use studio_bondage_club.Chat.Expressions.{sync_character}
use studio_bondage_club.Chat.State.{Account, ChatRoom, Game, emit, member_number, modify_account}
use studio_bondage_club.Chat.Sync.{emits, chat_room_message, tag_character}

-- A conjunction and a negation whose parts may throw.
infixr 30 ◌&?◌
abbrev pub ◌&?◌ : Option Bool → Option Bool → Option Bool
none &? b = none
some false &? b = some false
some true &? b = b

abbrev pub not? : Option Bool → Option Bool
not? none = none
not? (some b) = some (not b)

-- The default of the code's `value(key, std::int64_t{-1})`.
abbrev pub minus_one : ℤ
minus_one = negsuc 0

module _ (J : JsonLib) where
  open J use {Json, null, of_str, of_int, of_arr, of_obj, int?, member?, put}

  unfoldable pub has_key : String → Json → Bool
  has_key key j = elim (member? key j) [ none ↦ false | some v ↦ true ]

  -- `o.value(key, d) == n`.
  unfoldable pub value_is : String → ℤ → ℤ → Json → Option Bool
  value_is key d n o = elim (value_int J key d o) [ none ↦ none | some m ↦ some (eq_ℤ m n) ]

  -- `Start` is a number, and the delay since then is over.
  unfoldable pub delay_over : ℤ → ℤ → Json → Bool
  delay_over delay now o = elim (field? J int? "Start" o) [
    | none ↦ false
    | some t ↦ leb_ℤ (wrap_64 (t +ℤ delay)) now
  ]

  unfoldable pub change : Account J → (Json → Json) → M (Game J) (Unit {0})
  change acc f = modify (modify_account J acc.id (λ a. record a { fields = f a.fields }))

  -- The object behind a pointer, as it now is.
  unfoldable pub reread : Account J → M (Game J) (Account J)
  reread acc = do g ← get; lift (find_if (λ a. str_eq a.id acc.id) g.accounts)

  abbrev pub tells : Account J → String → List (String × Json) → M (Game J) (Unit {0})
  tells acc event members = emits J (emit acc.id event (of_obj members))

  abbrev pub tells_if_connected : Account J → String → List (String × Json) → M (Game J) (Unit {0})
  tells_if_connected acc event members = if acc.socket then tells acc event members else done

  -- `json{{"MemberNumber", n}, {"Result", …}}`.
  abbrev pub can : ℤ → String → List (String × Json)
  can n result = ("MemberNumber", of_int n) ∷ ("Result", of_str (codes result)) ∷ []

  abbrev pub server_message : ChatRoom J → ℤ → String → Json → Json → M (Game J) (Unit {0})
  server_message room sender content target dictionary =
      chat_room_message J room sender (codes content) (codes "ServerMessage") target dictionary

  unfoldable pub both_dict : Account J → Account J → M (Game J) Json
  both_dict acc target = do
    a ← tag_character J "SourceCharacter" acc
    t ← tag_character J "TargetCharacter" target
    pure (of_arr (a ∷ t ∷ []))

  abbrev pub show_self : ChatRoom J → Account J → M (Game J) (Unit {0})
  show_self room a = sync_character J room (member_number J a) (member_number J a)
