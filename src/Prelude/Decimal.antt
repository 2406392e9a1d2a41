-- ===== src/Prelude/Decimal.antt =====
-- `std::to_string` and `std::stoi` of an `int`, in decimal.
use Prim.Native.Nat.{ℕ, zero, suc, ◌+◌, ◌-◌, ◌*◌, ◌/◌, ◌%◌, ◌^◌, ◌<◌}
use mathlib.Core.Path.{◌≡◌, refl, ap, ◌∙◌}
use mathlib.Core.Bool.{true, false, ◌||◌}
use mathlib.Core.Option.{Option, none, some}
use mathlib.Core.List.{[], ◌∷◌}
use mathlib.Core.Logic.{inl, inr}
use native.Mathlib.Omega.{arith}
use studio_bondage_club.Prelude.Bytes.{Str, skip, is_space, is_digit, is_empty}
use studio_bondage_club.Prelude.Int.{ℤ, pos, negsuc}
use studio_bondage_club.Prelude.Lists.{any}
use studio_bondage_club.Prelude.Tests.{ltb, leb, ◌==◌, if◌then◌else◌, Bool-cases}

-- The digits in front of a text, on fuel: each round divides by ten.
unfoldable pub digits_before : ℕ → ℕ → Str → Str
digits_before zero n out = out
digits_before (suc f) n out =
    let more = digits_before f (n / 10) ((b'0' + n % 10) ∷ out) in
    if ltb n 10 then (b'0' + n) ∷ out else more

unfoldable pub to_string : ℕ → Str
to_string n = digits_before (suc n) n []

-- The digits at the front of a text, read after a number.
unfoldable pub read_from : ℕ → Str → ℕ
unfolding is_digit
read_from n [] = n
read_from n (c ∷ s) = let more = read_from (n * 10 + (c - b'0')) s in if is_digit c then more else n

abbrev pub int_max : ℕ
int_max = 2 ^ 31 - 1

-- The number, if there is a digit and the number is in range.
unfoldable pub positive : Str → Option ℤ
unfolding is_digit
positive [] = none
positive (c ∷ s) =
    if is_digit c
    then (if leb (read_from 0 (c ∷ s)) int_max then some (pos (read_from 0 (c ∷ s))) else none)
    else none

negative_of : ℕ → Option ℤ
negative_of zero = some (pos 0)
negative_of (suc n) = if leb n int_max then some (negsuc n) else none

unfoldable pub negative : Str → Option ℤ
unfolding is_digit negative_of
negative [] = none
negative (c ∷ s) = if is_digit c then negative_of (read_from 0 (c ∷ s)) else none

signed : Str → Option ℤ
signed [] = none
signed (c ∷ s) =
    if c == b'-' then negative s else if c == b'+' then positive s else positive (c ∷ s)

-- Blanks, a sign and digits; what follows the digits is ignored, and `none` is an exception.
unfoldable pub stoi : Str → Option ℤ
unfolding signed skip is_space
stoi s = signed (skip is_space s)

read_from-digits_before :
    (f n : ℕ) (out : Str) → n < f → read_from 0 (digits_before f n out) ≡ read_from n out
unfolding read_from digits_before is_digit
read_from-digits_before zero n out h = absurd (omega (arith, h))
read_from-digits_before (suc f) n out h = elim (Bool-cases (ltb n 10)) [
  | inl small ↦ ground (arith, small)
  | inr big ↦ ground (arith, big, read_from-digits_before f (n / 10) ((b'0' + n % 10) ∷ out))
]

-- A number's text is digits, of which there is one at least.
all_digits :
    (f n : ℕ) (out : Str)
    → any (λ c. ltb c b'0' || ltb b'9' c) out ≡ false
    → any (λ c. ltb c b'0' || ltb b'9' c) (digits_before f n out) ≡ false
unfolding digits_before
all_digits zero n out h = h
all_digits (suc f) n out h = elim (Bool-cases (ltb n 10)) [
  | inl small ↦ ground (arith, small, h)
  | inr big ↦ ground (arith, big, all_digits f (n / 10) ((b'0' + n % 10) ∷ out))
]

not_empty : (f n c : ℕ) (out : Str) → is_empty (digits_before f n (c ∷ out)) ≡ false
unfolding digits_before
not_empty zero n c out = refl
not_empty (suc f) n c out = elim (Bool-cases (ltb n 10)) [
  | inl small ↦ ground (arith, small)
  | inr big ↦ ground (arith, big, not_empty f (n / 10) (b'0' + n % 10) (c ∷ out))
]

pub to_string-not_empty : (n : ℕ) → is_empty (to_string n) ≡ false
unfolding to_string digits_before
to_string-not_empty n = elim (Bool-cases (ltb n 10)) [
  | inl small ↦ ground (arith, small)
  | inr big ↦ ground (arith, big, not_empty n (n / 10) (b'0' + n % 10) [])
]

pub to_string-digits : (n : ℕ) → any (λ c. ltb c b'0' || ltb b'9' c) (to_string n) ≡ false
unfolding to_string
to_string-digits n = all_digits (suc n) n [] refl

stoi-digits :
    (t : Str)
    → any (λ c. ltb c b'0' || ltb b'9' c) t ≡ false
    → is_empty t ≡ false
    → leb (read_from 0 t) int_max ≡ true
    → stoi t ≡ some (pos (read_from 0 t))
unfolding stoi signed skip is_space is_digit positive
stoi-digits [] d e r = cc
stoi-digits (c ∷ s) d e r = ground (arith, d, r)

pub to_string-read : (n : ℕ) → read_from 0 (to_string n) ≡ n
unfolding to_string read_from
to_string-read n = read_from-digits_before (suc n) n [] (omega arith)

-- `std::stoi` reads what `std::to_string` printed of a number that fits an `int`.
pub stoi-to_string : (n : ℕ) → leb n int_max ≡ true → stoi (to_string n) ≡ some (pos n)
stoi-to_string n h =
    let same = to_string-read n in
    stoi-digits (to_string n) (to_string-digits n) (to_string-not_empty n)
      (ap (λ m. leb m int_max) same ∙ h)
    ∙ ap (λ m. some (pos m)) same
