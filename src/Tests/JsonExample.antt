-- ===== src/Tests/JsonExample.antt =====
-- A JSON library that satisfies the laws of `JsonLib`: arrays and objects are built entry by entry.
use text.Mathlib.Text.{◌==◌}
use text.Mathlib.TextEquality.{eq_iff}
use studio_bondage_club.Prelude.{
  ℕ, suc, ◌≡◌, ◌≢◌, refl, ap, ◌∙◌, Bool, true, false, Option, none, some, List, [], ◌∷◌, String,
  Str, ℤ, arith, eq_ℤ, eq_ℤ_iff, if◌then◌else◌, str_eq, Bool-cases, inl, inr,
}
use studio_bondage_club.Json.{JsonLib}

pub data Value : Type 0 where
  v_null : Value
  v_str : Str → Value
  v_int : ℤ → Value
  v_bool : Bool → Value
  arr_end : Value
  arr_entry : Value → Value → Value
  obj_end : Value
  obj_entry : String → Value → Value → Value

abbrev pub v_arr : List Value → Value
v_arr [] = arr_end
v_arr (v ∷ vs) = arr_entry v (v_arr vs)

abbrev pub v_obj : List (String × Value) → Value
v_obj [] = obj_end
v_obj (e ∷ es) = obj_entry e.0 e.1 (v_obj es)

abbrev pub v_put : String → Value → Value → Value
v_put k v (obj_entry k' w rest) =
    let more = v_put k v rest in if k' == k then obj_entry k v rest else obj_entry k' w more
v_put k v _ = obj_entry k v obj_end

abbrev pub v_member : String → Value → Option Value
v_member k (obj_entry k' w rest) = let more = v_member k rest in if k' == k then some w else more
v_member k _ = none

abbrev pub v_elements : Value → Option (List Value)
v_elements arr_end = some []
v_elements (arr_entry v rest) = elim (v_elements rest) [ none ↦ none | some vs ↦ some (v ∷ vs) ]
v_elements _ = none

pub v_elements-v_arr : (vs : List Value) → v_elements (v_arr vs) ≡ some vs
v_elements-v_arr [] = refl
v_elements-v_arr (v ∷ vs) = rw (v_elements-v_arr vs) refl

key_same : (k : String) → (k == k) ≡ true
key_same k = (eq_iff k k).1 refl

key_other : (k k' : String) → k ≢ k' → (k == k') ≡ false
key_other k k' n = elim (Bool-cases (k == k')) [
  | inl same ↦ absurd (n ((eq_iff k k').0 same))
  | inr other ↦ other
]

pub member-put_self : (k : String) (v j : Value) → v_member k (v_put k v j) ≡ some v
member-put_self k v (obj_entry k' w rest) = elim (Bool-cases (k' == k)) [
  | inl here ↦ rw (here, key_same k) refl
  | inr there ↦ rw (there, there) (member-put_self k v rest)
]
member-put_self k v v_null = rw (key_same k) refl
member-put_self k v (v_str s) = rw (key_same k) refl
member-put_self k v (v_int n) = rw (key_same k) refl
member-put_self k v (v_bool b) = rw (key_same k) refl
member-put_self k v arr_end = rw (key_same k) refl
member-put_self k v (arr_entry a b) = rw (key_same k) refl
member-put_self k v obj_end = rw (key_same k) refl

pub member-put_ne :
    (k k' : String) (v j : Value) → k ≢ k' → v_member k' (v_put k v j) ≡ v_member k' j
member-put_ne k k' v (obj_entry l w rest) n = elim (Bool-cases (l == k)) [
  | inl here ↦
      let other = ap (λ m. m == k') ((eq_iff l k).0 here) ∙ key_other k k' n in
      rw (here, key_other k k' n, other) refl
  | inr there ↦ rw (there, member-put_ne k k' v rest n) refl
]
member-put_ne k k' v v_null n = rw (key_other k k' n) refl
member-put_ne k k' v (v_str s) n = rw (key_other k k' n) refl
member-put_ne k k' v (v_int i) n = rw (key_other k k' n) refl
member-put_ne k k' v (v_bool b) n = rw (key_other k k' n) refl
member-put_ne k k' v arr_end n = rw (key_other k k' n) refl
member-put_ne k k' v (arr_entry a b) n = rw (key_other k k' n) refl
member-put_ne k k' v obj_end n = rw (key_other k k' n) refl

abbrev pub v_erase : String → Value → Value
v_erase k (obj_entry k' w rest) =
    let more = v_erase k rest in if k' == k then more else obj_entry k' w more
v_erase k v = v

pub member-erase_self : (k : String) (j : Value) → v_member k (v_erase k j) ≡ none
member-erase_self k (obj_entry l w rest) = elim (Bool-cases (l == k)) [
  | inl here ↦ rw here (member-erase_self k rest)
  | inr there ↦ rw (there, there) (member-erase_self k rest)
]
member-erase_self k v_null = refl
member-erase_self k (v_str s) = refl
member-erase_self k (v_int n) = refl
member-erase_self k (v_bool b) = refl
member-erase_self k arr_end = refl
member-erase_self k (arr_entry a b) = refl
member-erase_self k obj_end = refl

pub member-erase_ne :
    (k k' : String) (j : Value) → k ≢ k' → v_member k' (v_erase k j) ≡ v_member k' j
member-erase_ne k k' (obj_entry l w rest) n = elim (Bool-cases (l == k)) [
  | inl here ↦
      let other = ap (λ m. m == k') ((eq_iff l k).0 here) ∙ key_other k k' n in
      rw (here, other) (member-erase_ne k k' rest n)
  | inr there ↦ rw (there, member-erase_ne k k' rest n) refl
]
member-erase_ne k k' v_null n = refl
member-erase_ne k k' (v_str s) n = refl
member-erase_ne k k' (v_int i) n = refl
member-erase_ne k k' (v_bool b) n = refl
member-erase_ne k k' arr_end n = refl
member-erase_ne k k' (arr_entry a b) n = refl
member-erase_ne k k' obj_end n = refl

abbrev pub v_items : Value → List (String × Value)
v_items (obj_entry k v rest) = (k, v) ∷ v_items rest
v_items v = []

abbrev pub v_size : Value → ℕ
v_size (obj_entry k v rest) = suc (v_size rest)
v_size (arr_entry v rest) = suc (v_size rest)
v_size v = 0

abbrev pub v_equal : Value → Value → Bool
v_equal (v_int n) (v_int m) = eq_ℤ n m
v_equal (v_str s) (v_str t) = str_eq s t
v_equal _ _ = false

abbrev pub v_text : Value → Option Str
v_text (v_str s) = some s
v_text _ = none

abbrev pub v_number : Value → Option ℤ
v_number (v_int n) = some n
v_number _ = none

abbrev pub v_truth : Value → Option Bool
v_truth (v_bool b) = some b
v_truth _ = none

abbrev pub v_is_null : Value → Bool
v_is_null v_null = true
v_is_null _ = false

abbrev pub v_is_object : Value → Bool
v_is_object obj_end = true
v_is_object (obj_entry k v rest) = true
v_is_object _ = false

pub equal-v_int : (n : ℤ) (j : Value) → v_number j ≡ some n → v_equal j (v_int n) ≡ true
equal-v_int n (v_int m) h = ground (arith, eq_ℤ_iff m n)
equal-v_int n v_null h = cc
equal-v_int n (v_str s) h = cc
equal-v_int n (v_bool b) h = cc
equal-v_int n arr_end h = cc
equal-v_int n (arr_entry a b) h = cc
equal-v_int n obj_end h = cc
equal-v_int n (obj_entry k a b) h = cc

abbrev pub json_example : JsonLib
json_example = record {
  Json = Value;
  null = v_null;
  of_str = v_str;
  of_int = v_int;
  of_bool = v_bool;
  of_arr = v_arr;
  of_obj = v_obj;
  is_null = v_is_null;
  is_object = v_is_object;
  str? = v_text;
  int? = v_number;
  num? = v_number;
  bool? = v_truth;
  arr? = v_elements;
  member? = v_member;
  equal = v_equal;
  put = v_put;
  erase = v_erase;
  size = v_size;
  items = v_items;
  str?-of_str = λ s. refl;
  int?-of_int = λ n. refl;
  equal-of_int = equal-v_int;
  arr?-of_arr = v_elements-v_arr;
  member?-put_self = member-put_self;
  member?-put_ne = member-put_ne;
  member?-erase_self = member-erase_self;
  member?-erase_ne = member-erase_ne;
}
