-- ===== src/Prelude/Handler.antt =====
-- Handlers over a state that may throw: `none` is an exception, and what was done before it stays
-- done, as in the program, which mutates its objects in place.
use mathlib.Core.Bool.{Bool, true, false}
use mathlib.Core.Option.{Option, none, some}
use studio_bondage_club.Prelude.Tests.{if◌then◌else◌}

abbrev pub M : Type 0 → Type 0 → Type 0
M S A = S → Option A × S

abbrev pub resume : {S A B : Type 0} → (A → M S B) → Option A × S → Option B × S
resume f (none, s) = (none, s)
resume f (some a, s) = f a s

infixl 5 ◌>>=◌ ◌>>◌
abbrev pub ◌>>=◌ : {S A B : Type 0} → M S A → (A → M S B) → M S B
◌>>=◌ m f s = resume f (m s)

abbrev pub ◌>>◌ : {S B : Type 0} → M S (Unit {0}) → M S B → M S B
◌>>◌ m k s = resume (λ _. k) (m s)

abbrev pub pure : {S A : Type 0} → A → M S A
pure a s = (some a, s)

abbrev pub done : {S : Type 0} → M S (Unit {0})
done s = (some tt, s)

-- The value of a call that may throw.
abbrev pub lift : {S A : Type 0} → Option A → M S A
lift o s = (o, s)

abbrev pub get : {S : Type 0} → M S S
get s = (some s, s)

abbrev pub modify : {S : Type 0} → (S → S) → M S (Unit {0})
modify f s = (some tt, f s)

-- `P` holds after the handler if it held before, whether or not it throws.
pub record Keeps {S A : Type 0} (P : S → Type 0) (m : M S A) : Type 0 where
  pub keeps : (s : S) → P s → P (m s).1

module _ {S : Type 0} (P : S → Type 0) where
  keeps_resume :
      {A B : Type 0} (f : A → M S B) (r : Option A × S)
      → ((a : A) → Keeps P (f a))
      → P r.1
      → P (resume f r).1
  keeps_resume f (none, s) hf h = h
  keeps_resume f (some a, s) hf h = (hf a).keeps s h

  pub Keeps->>= :
      {A B : Type 0} {m : M S A} {f : A → M S B}
      → Keeps P m
      → ((a : A) → Keeps P (f a))
      → Keeps P (m >>= f)
  Keeps->>= {m} {f} hm hf = record { keeps = λ s h. keeps_resume f (m s) hf (hm.keeps s h) }

  pub Keeps->> :
      {B : Type 0} {m : M S (Unit {0})} {k : M S B} → Keeps P m → Keeps P k → Keeps P (m >> k)
  Keeps->> {m} {k} hm hk = record {
    keeps = λ s h. keeps_resume (λ _. k) (m s) (λ _. hk) (hm.keeps s h);
  }

  pub Keeps-pure : {A : Type 0} (a : A) → Keeps P (pure {S = S} a)
  Keeps-pure a = record { keeps = λ s h. h }

  pub Keeps-done : Keeps P (done {S = S})
  Keeps-done = record { keeps = λ s h. h }

  pub Keeps-lift : {A : Type 0} (o : Option A) → Keeps P (lift {S = S} o)
  Keeps-lift o = record { keeps = λ s h. h }

  pub Keeps-get : Keeps P (get {S = S})
  Keeps-get = record { keeps = λ s h. h }

  pub Keeps-modify : (f : S → S) → ((s : S) → P s → P (f s)) → Keeps P (modify f)
  Keeps-modify f h = record { keeps = h }

  pub Keeps-if :
      {A : Type 0} (b : Bool) {m k : M S A} → Keeps P m → Keeps P k → Keeps P (if b then m else k)
  Keeps-if true h k = h
  Keeps-if false h k = k

  -- The value of a call that may throw, bound.
  pub Keeps-lift->>= :
      {A B : Type 0} (o : Option A) {f : A → M S B}
      → ((a : A) → Keeps P (f a))
      → Keeps P (lift o >>= f)
  Keeps-lift->>= o h = Keeps->>= (Keeps-lift o) h

-- From `P` before the handler, `Q` after it.
pub record Ensures {S A : Type 0} (P Q : S → Type 0) (m : M S A) : Type 0 where
  pub ensures : (s : S) → P s → Q (m s).1

module _ {S : Type 0} (P Q : S → Type 0) where
  ensures_resume :
      {A B : Type 0} (f : A → M S B) (r : Option A × S)
      → ((s : S) → P s → Q s)
      → ((a : A) → Ensures P Q (f a))
      → P r.1
      → Q (resume f r).1
  ensures_resume f (none, s) w hf h = w s h
  ensures_resume f (some a, s) w hf h = (hf a).ensures s h

  -- The first part keeps `P`, which is enough for `Q` if it throws.
  pub Ensures->>= :
      {A B : Type 0} {m : M S A} {f : A → M S B}
      → ((s : S) → P s → Q s)
      → Keeps P m
      → ((a : A) → Ensures P Q (f a))
      → Ensures P Q (m >>= f)
  Ensures->>= {m} {f} w hm hf = record {
    ensures = λ s h. ensures_resume f (m s) w hf (hm.keeps s h);
  }

  pub Ensures->> :
      {B : Type 0} {m : M S (Unit {0})} {k : M S B}
      → ((s : S) → P s → Q s)
      → Keeps P m
      → Ensures P Q k
      → Ensures P Q (m >> k)
  Ensures->> {m} {k} w hm hk = record {
    ensures = λ s h. ensures_resume (λ _. k) (m s) w (λ _. hk) (hm.keeps s h);
  }

  -- A change leads from `P` to `Q`, and the rest keeps `Q`.
  pub Ensures-modify->> :
      {B : Type 0} {f : S → S} {k : M S B}
      → ((s : S) → P s → Q (f s))
      → Keeps Q k
      → Ensures P Q (modify f >> k)
  Ensures-modify->> {f} hf hk = record { ensures = λ s h. hk.keeps (f s) (hf s h) }
