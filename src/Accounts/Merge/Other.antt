-- ===== src/Accounts/Merge/Other.antt =====
-- What a merge of fields (common/json_merge.cpp) leaves alone.
use studio_bondage_club.Prelude.{◌≡◌, ◌≢◌, refl, ◌∙◌, List, [], ◌∷◌, String, Bool-cases, inl, inr}
use studio_bondage_club.Json.{JsonLib}
use studio_bondage_club.Accounts.Merge.{path_of, set_path, merge_set_field, merge_set_fields}
use studio_bondage_club.Accounts.Merge

-- The first part of a path is another key.
abbrev pub StartsElsewhere : String → List String → Type 0
StartsElsewhere key [] = Unit
StartsElsewhere key (k ∷ ks) = k ≢ key

module _ (J : JsonLib) where
  -- The keys of the fields all have another part before their first dot.
  abbrev pub Avoids : String → List (String × J.Json) → Type 0
  Avoids key [] = Unit
  Avoids key (e ∷ es) = StartsElsewhere key (path_of e.0) × Avoids key es

  set_path-other :
      (key : String) (ks : List String) (v root : J.Json)
      → StartsElsewhere key ks
      → J.member? key (set_path J ks v root) ≡ J.member? key root
  unfolding set_path
  set_path-other key [] v root n = refl
  set_path-other key (k ∷ []) v root n = J.member?-put_ne k key v root n
  set_path-other key (k ∷ l ∷ ks) v root n =
      J.member?-put_ne k key (set_path J (l ∷ ks) v (Merge.as_object J (J.member? k root))) root n

  merge_all-other :
      (key : String) (es : List (String × J.Json)) (root : J.Json)
      → Avoids key es
      → J.member? key (Merge.merge_all J root es) ≡ J.member? key root
  unfolding Merge.merge_all merge_set_field
  merge_all-other key [] root a = refl
  merge_all-other key (e ∷ es) root a =
      merge_all-other key es (merge_set_field J root e.0 e.1) a.1
      ∙ set_path-other key (path_of e.0) e.1 root a.0

  -- A member is as it was before a merge of fields, if no key of the fields has the member's name as
  -- its part before the first dot.
  pub merge_set_fields-other :
      (key : String) (fields root : J.Json)
      → Avoids key (J.items fields)
      → J.member? key (merge_set_fields J root fields) ≡ J.member? key root
  unfolding merge_set_fields
  merge_set_fields-other key fields root a = elim (Bool-cases (J.is_object fields)) [
    | inl here ↦ rw here (merge_all-other key (J.items fields) root a)
    | inr gone ↦ rw gone refl
  ]
