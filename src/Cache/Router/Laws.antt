-- ===== src/Cache/Router/Laws.antt =====
-- What the router (cache/router.cpp) promises.
use studio_bondage_club.Prelude.{
  ℕ, suc, ◌≡◌, refl, ap, ◌⊎◌, inl, inr, Bool, true, false, not, Option, none, some, List, [], ◌∷◌,
  ◌++◌, Str, all, Bool-cases, Option-cases, arith,
}
use studio_bondage_club.Cache.Router
use studio_bondage_club.Cache.Router.{
  CacheRule, CompiledRule, RouteAction, Refusal, Compiled, ok, error, refusal, compiled,
  compile_from, compile, update, rules, applies, action_of, default_action, match, real_path,
}

module _ (is_regex : Str → Bool) where
  -- Whether a list of rules is refused: the first rule that is, with its position.
  pub first_refusal : ℕ → List CacheRule → Option Refusal
  first_refusal i [] = none
  first_refusal i (r ∷ rs) =
      let rest = first_refusal (suc i) rs in
      elim (refusal is_regex i r) [ none ↦ rest | some e ↦ some e ]

  -- What a compilation gives: all rules, or the first refusal.
  Gives : Option Refusal → List CacheRule → Compiled → Type 0
  Gives refused rs (ok cs) = (refused ≡ none) × (rules cs ≡ rs)
  Gives refused rs (error e) = refused ≡ some e

  push_front-Gives :
      (r : CacheRule) (o : Option Refusal) (rs : List CacheRule) (c : Compiled)
      → Gives o rs c
      → Gives o (r ∷ rs) (Router.push_front is_regex (compiled is_regex r) c)
  unfolding Gives Router.push_front compiled rules
  push_front-Gives r o rs (ok cs) (e, f) = (e, ap (λ t. r ∷ t) f)
  push_front-Gives r o rs (error e) h = h

  compile_from-Gives :
      (i : ℕ) (rs : List CacheRule) → Gives (first_refusal i rs) rs (compile_from is_regex i rs)
  unfolding Gives first_refusal compile_from rules
  compile_from-Gives i [] = (refl, refl)
  compile_from-Gives i (r ∷ rs) = elim (Option-cases (refusal is_regex i r)) [
    | inl fine ↦
        rw fine (push_front-Gives r (first_refusal (suc i) rs) rs _ (compile_from-Gives (suc i) rs))
    | inr (e, bad) ↦ rw bad refl
  ]

  -- What `update` leaves: the new rules, or the old ones with the error that is thrown.
  pub Leaves :
      List CacheRule
      → List CompiledRule
      → Option Refusal
      → Option Refusal × List CompiledRule
      → Type 0
  Leaves rs old none (thrown, cs) = (thrown ≡ none) × (rules cs ≡ rs)
  Leaves rs old (some e) (thrown, cs) = (thrown ≡ some e) × (cs ≡ old)

  Leaves-Gives :
      (rs : List CacheRule) (old : List CompiledRule) (o : Option Refusal) (c : Compiled)
      → Gives o rs c
      → Leaves rs old o (elim c [ ok cs ↦ (none, cs) | error e ↦ (some e, old) ])
  unfolding Gives Leaves
  Leaves-Gives rs old none (ok cs) h = (refl, h.1)
  Leaves-Gives rs old (some e) (ok cs) h = absurd (ground (arith, h.0))
  Leaves-Gives rs old none (error e) h = absurd (ground (arith, h))
  Leaves-Gives rs old (some e) (error d) h = ground (arith, h)

  -- If no rule is refused, an update replaces the rules, and `rules` then gives back the rules of the
  -- update in their order; else it throws the first refusal, by its position and the text that is no
  -- regular expression, and the old rules stay.
  pub update-cases :
      (rs : List CacheRule) (old : List CompiledRule)
      → Leaves rs old (first_refusal 0 rs) (update is_regex rs old)
  unfolding update compile
  update-cases rs old =
      Leaves-Gives rs old (first_refusal 0 rs) (compile_from is_regex 0 rs)
        (compile_from-Gives 0 rs)

module _ (le : ℕ → ℕ → Bool) (search_in : Str → Str → Bool) (host : Str) where
  -- A rule that applies to the path, behind rules that do not, or none.
  pub record IsFirst (path : Str) (cs : List CompiledRule) (a : RouteAction) : Type 0 where
    pub before : List CompiledRule
    pub chosen : CompiledRule
    pub after : List CompiledRule
    pub split : cs ≡ before ++ chosen ∷ after
    pub skipped : all (λ c. not (applies le search_in host path c)) before ≡ true
    pub fits : applies le search_in host path chosen ≡ true
    pub action : a ≡ action_of chosen.rule

  pub record IsNone (path : Str) (cs : List CompiledRule) (a : RouteAction) : Type 0 where
    pub skipped : all (λ c. not (applies le search_in host path c)) cs ≡ true
    pub action : a ≡ default_action

  later :
      (path : Str) (c : CompiledRule) (cs : List CompiledRule) (a : RouteAction)
      → applies le search_in host path c ≡ false
      → IsFirst path cs a ⊎ IsNone path cs a
      → IsFirst path (c ∷ cs) a ⊎ IsNone path (c ∷ cs) a
  later path c cs a n (inl f) = inl (record {
    before = c ∷ f.before;
    chosen = f.chosen;
    after = f.after;
    split = ap (λ t. c ∷ t) f.split;
    skipped = rw n f.skipped;
    fits = f.fits;
    action = f.action;
  })
  later path c cs a n (inr f) = inr (record { skipped = rw n f.skipped; action = f.action })

  first_of-cases :
      (path : Str) (cs : List CompiledRule)
      → IsFirst path cs (Router.first_of le search_in host path cs)
        ⊎ IsNone path cs (Router.first_of le search_in host path cs)
  unfolding Router.first_of
  first_of-cases path [] = inr (record { skipped = refl; action = refl })
  first_of-cases path (c ∷ cs) = elim (Bool-cases (applies le search_in host path c)) [
    | inl here ↦ rw here (
        inl (record {
          before = [];
          chosen = c;
          after = cs;
          split = refl;
          skipped = refl;
          fits = here;
          action = refl;
        }))
    | inr there ↦ rw there (later path c cs _ there (first_of-cases path cs))
  ]

  -- The action for a request is that of a rule that applies to the host and to the path below the
  -- base's path, behind rules of which none applies; or it is the default, and no rule applies.
  pub match-cases :
      (cs : List CompiledRule) (tpath base_path : Str)
      → IsFirst (real_path base_path tpath) cs (match le search_in cs host tpath base_path)
        ⊎ IsNone (real_path base_path tpath) cs (match le search_in cs host tpath base_path)
  unfolding match
  match-cases cs tpath base_path = first_of-cases (real_path base_path tpath) cs
