-- ===== src/Password/Verify.antt =====
-- A stored hash accepts its password (game/password.cpp).
use Prim.Native.Nat.{bit_or, bit_xor, bitwise, bit_xor-bitwise, differ}
use Prim.Native.Nat
use studio_bondage_club.Prelude.{
  ℕ, zero, suc, ◌+◌, ◌*◌, ◌/◌, ◌%◌, ◌^◌, ◌<◌, ◌≡◌, ◌≤◌, ◌==◌, refl, ap, ◌∙◌, true, false, ◌||◌, ltb,
  leb, [], ◌∷◌, ◌++◌, Str, any, arith, is_empty, str_eq, codes, split, join_by, split-join_by,
  to_string, to_string-digits, stoi-to_string, int_max, ℤ, pos, negsuc,
}
use studio_bondage_club.Base64.RoundTrip.{AllBytes, base64_decode-base64_encode}
use studio_bondage_club.Base64.{enc, sextet, base64_encode}
use studio_bondage_club.Password
use studio_bondage_club.Password.{
  difference, constant_time_equal, hash_password, verify_password, rounds_or_default,
}

differ_self : (x : ℕ) → differ x x ≡ 0
differ_self zero = refl
differ_self (suc x) = differ_self x

digits_self : (n a : ℕ) → a ≤ n → Nat.digits (λ b. b) differ n a a ≡ 0
digits_self zero a h = omega (arith, h)
digits_self (suc n) zero h = refl
digits_self (suc n) (suc a) h =
    let half = digits_self n (suc a / 2) (omega (arith, h)) in
    let last = differ_self (suc a % 2) in omega (arith, half, last)

xor_self : (a : ℕ) → bit_xor a a ≡ 0
xor_self a = bit_xor-bitwise a a ∙ digits_self a a (omega arith)

no_difference : (s : Str) → difference 0 s s ≡ 0
unfolding difference
no_difference [] = refl
no_difference (x ∷ s) = rw (xor_self x) (no_difference s)

equal_self : (s : Str) → constant_time_equal s s ≡ true
unfolding constant_time_equal
equal_self s = ground (arith, no_difference s)

-- No separator stands in a number's text and in an encoded text.
enc-no_dollar : (i : ℕ) → i < 64 → (enc i == b'$') ≡ false
unfolding enc
enc-no_dollar i h = ground arith

sextet-no_dollar : (n k : ℕ) → (sextet n k == b'$') ≡ false
sextet-no_dollar n k = enc-no_dollar (n / 2 ^ k % 64) (six n k)
  where
    six : (m l : ℕ) → m / 2 ^ l % 64 < 64
    six m l = omega arith

encoded-no_dollar : (s : Str) → any (λ c. c == b'$') (base64_encode s) ≡ false
unfolding base64_encode
encoded-no_dollar [] = refl
encoded-no_dollar (a ∷ []) =
    let n = a * 2 ^ 16 in rw (sextet-no_dollar n 18, sextet-no_dollar n 12) refl
encoded-no_dollar (a ∷ b ∷ []) =
    let n = a * 2 ^ 16 + b * 2 ^ 8 in
    rw (sextet-no_dollar n 18, sextet-no_dollar n 12, sextet-no_dollar n 6) refl
encoded-no_dollar (a ∷ b ∷ c ∷ s) =
    let n = a * 2 ^ 16 + b * 2 ^ 8 + c in
    rw
      (
        sextet-no_dollar n 18,
        sextet-no_dollar n 12,
        sextet-no_dollar n 6,
        enc-no_dollar (n % 64) (omega arith),
      )
      (encoded-no_dollar s)

digits-no_dollar :
    (t : Str) → any (λ c. ltb c b'0' || ltb b'9' c) t ≡ false → any (λ c. c == b'$') t ≡ false
digits-no_dollar [] h = refl
digits-no_dollar (c ∷ t) h = ground (arith, h, digits-no_dollar t)

module _ (derive : Str → Str → ℕ → Str) where
  -- What the derivation and the salt are relied on for: they are bytes, and there are some.
  pub record IsDerivation : Type 0 where
    pub bytes : (password salt : Str) (n : ℕ) → AllBytes (derive password salt n)
    pub some_bytes : (password salt : Str) (n : ℕ) → is_empty (derive password salt n) ≡ false

  parts_of :
      (salt key : Str) (n : ℕ)
      → split b'$' (
          codes "pbkdf2$"
          ++ (to_string n ++ (b'$' ∷ (base64_encode salt ++ (b'$' ∷ base64_encode key)))))
        ≡ codes "pbkdf2" ∷ to_string n ∷ base64_encode salt ∷ base64_encode key ∷ []
  unfolding join_by
  parts_of salt key n =
      split-join_by b'$' (codes "pbkdf2")
        (to_string n ∷ base64_encode salt ∷ base64_encode key ∷ [])
        (rw
          (
            digits-no_dollar (to_string n) (to_string-digits n),
            encoded-no_dollar salt,
            encoded-no_dollar key,
          )
          refl)

  checked :
      (password salt : Str) (n : ℕ)
      → IsDerivation
      → is_empty salt ≡ false
      → Password.check derive password n salt (derive password salt n) ≡ true
  unfolding Password.check
  checked password salt n d s =
      rw (s, d.some_bytes password salt n) (equal_self (derive password salt n))

  -- The check of the parts of a stored text.
  parts-accepted :
      (password salt : Str) (n : ℕ)
      → IsDerivation
      → AllBytes salt
      → is_empty salt ≡ false
      → leb (suc n) int_max ≡ true
      → Password.verify_parts derive password (
          codes "pbkdf2"
          ∷ to_string (suc n)
          ∷ base64_encode salt
          ∷ base64_encode (derive password salt (suc n))
          ∷ [])
        ≡ true
  unfolding Password.verify_parts Password.verify_rounds str_eq
  parts-accepted password salt n d b s h =
      rw
        (
          stoi-to_string (suc n) h,
          base64_decode-base64_encode salt b,
          base64_decode-base64_encode (derive password salt (suc n))
              (d.bytes password salt (suc n)),
        )
        (checked password salt (suc n) d s)

  accepted :
      (password salt : Str) (n : ℕ)
      → IsDerivation
      → AllBytes salt
      → is_empty salt ≡ false
      → 0 < n
      → leb n int_max ≡ true
      → verify_password derive password (
          codes "pbkdf2$"
          ++ (to_string n
              ++ (b'$' ∷ (base64_encode salt ++ (b'$' ∷ base64_encode (derive password salt n))))))
        ≡ true
  unfolding verify_password
  accepted password salt zero d b s p h = absurd (omega (arith, p))
  accepted password salt (suc n) d b s p h =
      ap (Password.verify_parts derive password)
        (parts_of salt (derive password salt (suc n)) (suc n))
      ∙ parts-accepted password salt n d b s h

  rounds-positive : (i : ℤ) → 0 < rounds_or_default i
  unfolding rounds_or_default
  rounds-positive (pos zero) = omega arith
  rounds-positive (pos (suc n)) = omega arith
  rounds-positive (negsuc n) = omega arith

  -- A password is accepted against its own hash, with any salt and any number of rounds that fits an
  -- `int`, if the salt and the derived keys are bytes and not empty.
  pub verify_password-hash_password :
      (salt password : Str) (iterations : ℤ)
      → IsDerivation
      → AllBytes salt
      → is_empty salt ≡ false
      → leb (rounds_or_default iterations) int_max ≡ true
      → verify_password derive password (hash_password derive salt password iterations) ≡ true
  unfolding hash_password
  verify_password-hash_password salt password iterations d b s h =
      accepted password salt (rounds_or_default iterations) d b s (rounds-positive iterations) h
