-- ===== src/Chat/Names.antt =====
-- Room names and limits: the text helpers of chatroom_manager.cpp and the settings that its handlers
-- read (settings.hpp), both in server/gameserver/game.
pub mod Same
pub mod Upper
use studio_bondage_club.Prelude.{
  ℕ, Bool, ◌&&◌, ◌||◌, Option, none, some, Str, ℤ, ltb_ℤ, leb, map, length, all, if◌then◌else◌,
  to_upper, trim_by, ◌==◌,
}

-- The settings that the handlers read (settings.hpp).
pub record Settings : Type 0 where
  pub description_max_len : ℤ
  pub room_limit_default : ℤ
  pub room_limit_min : ℤ
  pub room_limit_max : ℤ
  pub search_max_results : ℤ

-- `find_first_not_of(" \t")` and `find_last_not_of(" \t")`.
unfoldable pub is_blank : ℕ → Bool
is_blank c = c == 32 || c == 9

unfoldable pub trim : Str → Str
unfolding trim_by is_blank
trim s = trim_by is_blank s

unfoldable pub upper_trim : Str → Str
unfolding trim
upper_trim s = map to_upper (trim s)

-- The regular expression ^[\x20-\x7E]{1,20}$.
unfoldable pub name_matches : Str → Bool
name_matches s = leb 1 (length s) && leb (length s) 20 && all (λ c. leb 32 c && leb c 126) s

-- `limit` of a request, or the default where it is missing or out of bounds.
unfoldable pub room_limit : Settings → Option ℤ → ℤ
room_limit cfg none = cfg.room_limit_default
room_limit cfg (some n) =
    if ltb_ℤ n cfg.room_limit_min || ltb_ℤ cfg.room_limit_max n then cfg.room_limit_default else n
