-- ===== src/Cache/Glob/Correct.antt =====
-- `glob_match` (cache/router.cpp) implements the meaning of the globs.
use studio_bondage_club.Prelude.{
  ℕ, zero, suc, ◌≡◌, refl, sym, ◌∙◌, ◌<◌, ◌↔◌, Bool, true, false, not, ◌&&◌, ◌||◌, Option, none,
  some, List, [], ◌∷◌, Str, length, any, if◌then◌else◌, ◌==◌, Bool-cases, Option-cases, inl, inr,
  arith,
}
use studio_bondage_club.Cache.Glob
use studio_bondage_club.Cache.Glob.{
  on_char, star, glob_here, glob_match, match_class, class_loop, in_item, unescape, range_end,
  after_range,
}
use studio_bondage_club.Cache.Glob.Lengths.{token-le}
use studio_bondage_club.Cache.Glob.Meaning
use studio_bondage_club.Cache.Glob.Meaning.{
  Items, Token, any_run, any_char, one_of, literal, items, class_of, token, tokens, accepts, Fits,
  nothing, run_end, run_on, character, member, itself, bracketed, after_backslash,
}

module _ (le : ℕ → ℕ → Bool) where
  abbrev in_items : Items → ℕ → Bool
  in_items is c = any (λ i. in_item le c i.0 i.1) is

  found : Bool → ℕ → Option (Items × Str) → Option (Bool × Str)
  found m c none = none
  found m c (some (is, rest)) = some (m || in_items is c, rest)

  found-onto :
      (m : Bool) (c : ℕ) (i : ℕ × Option ℕ) (r : Option (Items × Str))
      → found (m || in_item le c i.0 i.1) c r ≡ found m c (Meaning.onto i r)
  unfolding found Meaning.onto
  found-onto m c i none = refl
  found-onto m c i (some (is, rest)) = ground arith

  class_loop-items :
      (n : ℕ) (first m : Bool) (c : ℕ) (pat : Str)
      → class_loop le n first m c pat ≡ found m c (items n first pat)
  unfolding class_loop items found
  class_loop-items zero first m c pat = refl
  class_loop-items (suc n) first m c [] = refl
  class_loop-items (suc n) first m c (p ∷ pat) =
      let e = unescape p pat in
      let hi = range_end e.1 in
      let rest = after_range hi e.1 in
      let more =
        class_loop-items n false (m || in_item le c e.0 hi) c rest
        ∙ found-onto m c (e.0, hi) (items n false rest) in
      elim (Bool-cases (p == b']' && not first)) [
        | inl closed ↦ ground (arith, closed)
        | inr open' ↦ ground (arith, open', more)
      ]

  -- What a class makes of a character.
  met : ℕ → Option ((Bool × Items) × Str) → Option (Bool × Str)
  met c none = none
  met c (some (set, rest)) = some (accepts le set.0 set.1 c, rest)

  negate_if-found :
      (negated : Bool) (c : ℕ) (r : Option (Items × Str))
      → Glob.negate_if le negated (found false c r) ≡ met c (Meaning.classed negated r)
  unfolding Glob.negate_if found met Meaning.classed accepts
  negate_if-found negated c none = refl
  negate_if-found negated c (some (is, rest)) = refl

  match_class-met : (c : ℕ) (pat : Str) → match_class le c pat ≡ met c (class_of pat)
  unfolding match_class class_of met Meaning.classed
  match_class-met c [] = refl
  match_class-met c (p ∷ pat) =
      let short = class_loop-items (suc (length pat)) true false c pat in
      let full = class_loop-items (suc (length (p ∷ pat))) true false c (p ∷ pat) in
      elim (Bool-cases (Glob.is_negation le p)) [
        | inl negated ↦
            ground
              (arith, negated, short, negate_if-found true c (items (suc (length pat)) true pat))
        | inr plain ↦ ground (
          arith,
          plain,
          full,
          negate_if-found false c (items (suc (length (p ∷ pat))) true (p ∷ pat)),
        )
      ]

  -- One step of the matcher at a token.
  step : (Str → Str → Bool) → Token → Str → Str → Bool
  step k any_run rest text = star le (k rest) text
  step k any_char rest text = on_char le (λ t ts. if t == b'/' then false else k rest ts) text
  step k (one_of negated is) rest text =
      on_char le (λ t ts. if accepts le negated is t then k rest ts else false) text
  step k (literal c) rest text = on_char le (λ t ts. if t == c then k rest ts else false) text

  bracket-step :
      (k : Str → Str → Bool) (pat text : Str)
      → on_char le (λ t ts. Glob.bracket le k pat t ts (match_class le t pat)) text
        ≡ step k (bracketed pat (class_of pat)).0 (bracketed pat (class_of pat)).1 text
  unfolding step bracketed Glob.bracket met
  bracket-step k pat [] = elim (Option-cases (class_of pat)) [
    | inl open' ↦ rw open' refl
    | inr (r, closed) ↦ rw closed refl
  ]
  bracket-step k pat (t ∷ ts) = elim (Option-cases (class_of pat)) [
    | inl open' ↦ rw (match_class-met t pat, open') refl
    | inr (r, closed) ↦ rw (match_class-met t pat, closed) refl
  ]

  escaped-step :
      (k : Str → Str → Bool) (pat text : Str)
      → Glob.escaped le k pat text ≡ step k (after_backslash pat).0 (after_backslash pat).1 text
  unfolding step after_backslash Glob.escaped
  escaped-step k [] text = refl
  escaped-step k (e ∷ es) text = refl

  glob_here-step :
      (n p : ℕ) (pat text : Str)
      → glob_here le (suc n) (p ∷ pat) text
        ≡ step (glob_here le n) (token p pat).0 (token p pat).1 text
  unfolding glob_here token step
  glob_here-step n p pat text = elim (Bool-cases (p == b'*')) [
    | inl a ↦ rw a refl
    | inr a ↦ elim (Bool-cases (p == b'?')) [
      | inl b ↦ rw (a, b) refl
      | inr b ↦ elim (Bool-cases (p == b'[')) [
        | inl c ↦ rw (a, b, c) (bracket-step (glob_here le n) pat text)
        | inr c ↦ elim (Bool-cases (p == b'\\')) [
          | inl d ↦ rw (a, b, c, d) (escaped-step (glob_here le n) pat text)
          | inr d ↦ rw (a, b, c, d) refl
        ]
      ]
    ]
  ]

  -- The two directions at one token, given those for the rest of the pattern.
  star-Fits :
      (k : Str → Bool) (ps : List Token) (text : Str)
      → ((s : Str) → k s ≡ true → Fits le ps s)
      → star le k text ≡ true
      → Fits le (any_run ∷ ps) text
  unfolding star
  star-Fits k ps [] h e = run_end (h [] e)
  star-Fits k ps (t ∷ ts) h e = elim (Bool-cases (k (t ∷ ts))) [
    | inl here ↦ run_end (h (t ∷ ts) here)
    | inr later ↦ elim (Bool-cases (t == b'/')) [
      | inl slash ↦ absurd (ground (arith, e, later, slash))
      | inr other ↦ run_on other (star-Fits k ps ts h (ground (arith, e, later, other)))
    ]
  ]

  if-true : (b c : Bool) → (if b then c else false) ≡ true → (b ≡ true) × (c ≡ true)
  if-true b c e = ground arith

  step-Fits :
      (k : Str → Str → Bool) (tok : Token) (rest : Str) (ps : List Token) (text : Str)
      → ((s : Str) → k rest s ≡ true → Fits le ps s)
      → step k tok rest text ≡ true
      → Fits le (tok ∷ ps) text
  unfolding step
  step-Fits k any_run rest ps text h e = star-Fits (k rest) ps text h e
  step-Fits k any_char rest ps [] h e = cc
  step-Fits k any_char rest ps (t ∷ ts) h e = elim (Bool-cases (t == b'/')) [
    | inl slash ↦ absurd (ground (arith, e, slash))
    | inr other ↦ character other (h ts (ground (arith, e, other)))
  ]
  step-Fits k (one_of negated is) rest ps [] h e = cc
  step-Fits k (one_of negated is) rest ps (t ∷ ts) h e =
      let both = if-true (accepts le negated is t) (k rest ts) e in member both.0 (h ts both.1)
  step-Fits k (literal c) rest ps [] h e = cc
  step-Fits k (literal c) rest ps (t ∷ ts) h e =
      let both = if-true (t == c) (k rest ts) e in itself both.0 (h ts both.1)

  Fits-step :
      (k : Str → Str → Bool) (tok : Token) (rest : Str) (ps : List Token) (text : Str)
      → ((s : Str) → Fits le ps s → k rest s ≡ true)
      → Fits le (tok ∷ ps) text
      → step k tok rest text ≡ true
  unfolding step star
  Fits-step k _ rest ps [] h (run_end f) = h [] f
  Fits-step k _ rest ps (t ∷ ts) h (run_end f) = rw (h (t ∷ ts) f) refl
  Fits-step k _ rest ps (t ∷ ts) h (run_on n f) =
      ground (arith, n, Fits-step k any_run rest ps ts h f)
  Fits-step k _ rest ps (t ∷ ts) h (character n f) = rw (n, h ts f) refl
  Fits-step k _ rest ps (t ∷ ts) h (member a f) = rw (a, h ts f) refl
  Fits-step k _ rest ps (t ∷ ts) h (itself a f) = rw (a, h ts f) refl

  glob_here-Fits :
      (n : ℕ) (pat text : Str)
      → length pat < n
      → glob_here le n pat text ≡ true
      → Fits le (tokens n pat) text
  unfolding glob_here tokens
  glob_here-Fits zero pat text h e = absurd (omega (arith, h))
  glob_here-Fits (suc n) [] [] h e = nothing
  glob_here-Fits (suc n) [] (t ∷ ts) h e = cc
  glob_here-Fits (suc n) (p ∷ pat) text h e =
      step-Fits (glob_here le n) (token p pat).0 (token p pat).1 (tokens n (token p pat).1) text
        (λ s m. glob_here-Fits n (token p pat).1 s (omega (arith, h, token-le p pat)) m)
        (sym (glob_here-step n p pat text) ∙ e)

  Fits-glob_here :
      (n : ℕ) (pat text : Str)
      → length pat < n
      → Fits le (tokens n pat) text
      → glob_here le n pat text ≡ true
  unfolding glob_here tokens
  Fits-glob_here zero pat text h f = absurd (omega (arith, h))
  Fits-glob_here (suc n) [] _ h nothing = refl
  Fits-glob_here (suc n) (p ∷ pat) text h f =
      glob_here-step n p pat text
      ∙ Fits-step (glob_here le n) (token p pat).0 (token p pat).1 (tokens n (token p pat).1) text
          (λ s m. Fits-glob_here n (token p pat).1 s (omega (arith, h, token-le p pat)) m) f

  -- A pattern matches a text exactly if the tokens of the pattern fit it one after another: a star a run
  -- without slashes, a question mark one character that is no slash, a class a character that it
  -- accepts, and any other character itself, as does a bracket that is not closed and whatever stands
  -- behind a backslash.
  pub glob_match-Fits :
      (pattern text : Str)
      → (glob_match le pattern text ≡ true) ↔ Fits le (tokens (suc (length pattern)) pattern) text
  unfolding glob_match
  glob_match-Fits pattern text = (
    glob_here-Fits (suc (length pattern)) pattern text (omega arith),
    Fits-glob_here (suc (length pattern)) pattern text (omega arith),
  )
