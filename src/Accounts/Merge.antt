-- ===== src/Accounts/Merge.antt =====
-- common/json_merge.cpp: fields set under dotted keys, which walk into nested objects.
pub mod Other
use Prim.Native.Char.{code}
use studio_bondage_club.Prelude.{
  Bool, true, false, Option, none, some, List, [], ◌∷◌, String, if◌then◌else◌, ◌==◌,
}
use studio_bondage_club.Json.{JsonLib}

-- The parts of a key between its dots.
unfoldable pub path_of : String → List String
path_of String.[] = String.[] ∷ []
path_of (String.◌∷◌ c s) =
    let rest = path_of s in
    if code c == b'.'
    then String.[] ∷ rest
    else elim rest [ [] ↦ [] | ◌∷◌ p ps ↦ String.◌∷◌ c p ∷ ps ]

module _ (J : JsonLib) where
  open J use {Json, of_obj, is_object, member?, put, items}

  -- `if (!next.is_object()) next = json::object();`
  abbrev pub as_object : Option Json → Json
  as_object none = of_obj []
  as_object (some v) = if is_object v then v else of_obj []

  -- The walk along a path, which `split` never leaves empty.
  unfoldable pub set_path : List String → Json → Json → Json
  set_path [] v root = root
  set_path (k ∷ []) v root = put k v root
  set_path (k ∷ l ∷ ks) v root = put k (set_path (l ∷ ks) v (as_object (member? k root))) root

  unfoldable pub merge_set_field : Json → String → Json → Json
  merge_set_field root key v = set_path (path_of key) v root

  merge_all : Json → List (String × Json) → Json
  merge_all root [] = root
  merge_all root (e ∷ es) = merge_all (merge_set_field root e.0 e.1) es

  unfoldable pub merge_set_fields : Json → Json → Json
  unfolding merge_all
  merge_set_fields root fields = if is_object fields then merge_all root (items fields) else root
