-- ===== src/Json.antt =====
-- The interface of the JSON library (nlohmann::json), which the program calls and does not contain:
-- a type of values with the constructors, tests and accessors that the game server uses, and the
-- documented laws between them. It is a parameter of every module that handles JSON. The derived
-- accessors below follow the documentation of `value(key, default)`: `none` is a thrown type error.
use studio_bondage_club.Prelude.{
  ℕ, ◌≡◌, ◌≢◌, Bool, true, Option, none, some, List, [], String, Str, ℤ, pos, wrap_32,
  if◌then◌else◌,
}

pub record JsonLib : Type 1 where
  pub Json : Type 0
  pub null : Json
  pub of_str : Str → Json
  pub of_int : ℤ → Json
  pub of_bool : Bool → Json
  pub of_arr : List Json → Json
  pub of_obj : List (String × Json) → Json
  -- `is_null`, `is_object`, and the tests `is_…` joined with the `get` that follows them.
  pub is_null : Json → Bool
  pub is_object : Json → Bool
  pub str? : Json → Option Str
  -- `is_number_integer` and `get<std::int64_t>`.
  pub int? : Json → Option ℤ
  -- `is_number` and `get<std::int64_t>`, which cuts the fraction off.
  pub num? : Json → Option ℤ
  pub bool? : Json → Option Bool
  pub arr? : Json → Option (List Json)
  -- `contains(key)` and `j[key]`: `none` if the key is absent or `j` is no object.
  pub member? : String → Json → Option Json
  -- `==`, and `json(n)` on its right.
  pub equal : Json → Json → Bool
  -- `j[key] = v`.
  pub put : String → Json → Json → Json
  -- `j.erase(key)`, `j.size()`, and the members of an object in their order.
  pub erase : String → Json → Json
  pub size : Json → ℕ
  pub items : Json → List (String × Json)
  pub str?-of_str : (s : Str) → str? (of_str s) ≡ some s
  pub int?-of_int : (n : ℤ) → int? (of_int n) ≡ some n
  pub equal-of_int : (n : ℤ) (j : Json) → int? j ≡ some n → equal j (of_int n) ≡ true
  pub arr?-of_arr : (xs : List Json) → arr? (of_arr xs) ≡ some xs
  pub member?-put_self : (k : String) (v j : Json) → member? k (put k v j) ≡ some v
  pub member?-put_ne : (k k' : String) (v j : Json) → k ≢ k' → member? k' (put k v j) ≡ member? k' j
  pub member?-erase_self : (k : String) (j : Json) → member? k (erase k j) ≡ none
  pub member?-erase_ne : (k k' : String) (j : Json) → k ≢ k' → member? k' (erase k j) ≡ member? k' j

module _ (J : JsonLib) where
  open J use {Json, is_object, str?, num?, bool?, arr?, member?, of_arr}

  abbrev or_default {ℓ} : {A : Type ℓ} → (Json → Option A) → A → Option Json → Option A
  or_default get d none = some d
  or_default get d (some v) = get v

  -- `j.value(key, d)`, which throws on a value that is no object and on a member of another type.
  unfoldable pub value {ℓ} : {A : Type ℓ} → (Json → Option A) → String → A → Json → Option A
  value get key d j = if is_object j then or_default get d (member? key j) else none

  -- `j.value(key, json::array())` is the member itself, whatever its type.
  unfoldable pub value_arr : String → Json → Option Json
  unfolding value
  value_arr key j = value some key (of_arr []) j

  abbrev and_then {ℓ} : {A : Type ℓ} → (Json → Option A) → Option Json → Option A
  and_then get none = none
  and_then get (some v) = get v

  -- `j.contains(key) && j[key].is_…()`, with the value.
  unfoldable pub field? {ℓ} : {A : Type ℓ} → (Json → Option A) → String → Json → Option A
  field? get key j = and_then get (member? key j)

  -- `j.contains(key) && j[key].is_object()`, with the object.
  abbrev only_object : Json → Option Json
  only_object v = if is_object v then some v else none

  unfoldable pub object_field : String → Json → Option Json
  object_field key j = and_then only_object (member? key j)

  -- `get<int>`: of a number, converted to 32 bits, or of a Boolean.
  get_int : Json → Option ℤ
  get_int v = elim (num? v) [
    | some n ↦ some (wrap_32 n)
    | none ↦ elim (J.bool? v) [ none ↦ none | some b ↦ some (if b then pos 1 else pos 0) ]
  ]

  -- `j.value(key, d)` of an `int`.
  unfoldable pub value_int32 : String → ℤ → Json → Option ℤ
  unfolding value get_int
  value_int32 key d j = value get_int key d j

  -- `j.value(key, d)` of a 64-bit number.
  unfoldable pub value_int : String → ℤ → Json → Option ℤ
  unfolding value
  value_int key d j = value num? key d j
