-- ===== src/Password.antt =====
-- game/password.cpp (server/gameserver). The key derivation PBKDF2-HMAC-SHA256 is a parameter, from the
-- password, the salt and the number of rounds to a key, and so is the salt that is drawn.
pub mod Verify
use Prim.Native.Nat.{bit_or, bit_xor}
use studio_bondage_club.Prelude.{
  ℕ, zero, suc, Bool, true, false, ◌&&◌, ◌||◌, Option, none, some, List, [], ◌∷◌, ◌++◌, Str, codes,
  ℤ, pos, negsuc, length, ◌==◌, if◌then◌else◌, split, to_string, stoi, str_eq, is_empty, leb_ℤ,
}
use studio_bondage_club.Base64.{base64_encode, base64_decode}

-- `diff |= a[i] ^ b[i]`, over texts of the same length.
unfoldable pub difference : ℕ → Str → Str → ℕ
difference diff [] t = diff
difference diff (x ∷ s) [] = diff
difference diff (x ∷ s) (y ∷ t) = difference (bit_or diff (bit_xor x y)) s t

unfoldable pub constant_time_equal : Str → Str → Bool
unfolding difference
constant_time_equal a b = if length a == length b then difference 0 a b == 0 else false

-- A number of rounds that is not positive is replaced.
unfoldable pub rounds_or_default : ℤ → ℕ
rounds_or_default (pos zero) = 100000
rounds_or_default (pos (suc n)) = suc n
rounds_or_default (negsuc n) = 100000

module _ (derive : Str → Str → ℕ → Str) where
  unfoldable pub hash_password : Str → Str → ℤ → Str
  hash_password salt password iterations =
      let n = rounds_or_default iterations in
      codes "pbkdf2$"
      ++ (to_string n
          ++ (b'$' ∷ (base64_encode salt ++ (b'$' ∷ base64_encode (derive password salt n)))))

  check : Str → ℕ → Str → Str → Bool
  check password iterations salt expected =
      if is_empty salt || is_empty expected
      then false
      else constant_time_equal (derive password salt iterations) expected

  verify_rounds : Str → Option ℤ → Str → Str → Bool
  unfolding check
  verify_rounds password (some (pos (suc n))) salt expected =
      check password (suc n) (base64_decode salt) (base64_decode expected)
  verify_rounds password (some (pos zero)) salt expected = false
  verify_rounds password (some (negsuc n)) salt expected = false
  verify_rounds password none salt expected = false

  verify_parts : Str → List Str → Bool
  unfolding verify_rounds
  verify_parts password (scheme ∷ rounds ∷ salt ∷ expected ∷ []) =
      if str_eq scheme (codes "pbkdf2")
      then verify_rounds password (stoi rounds) salt expected
      else false
  verify_parts password _ = false

  unfoldable pub verify_password : Str → Str → Bool
  unfolding verify_parts
  verify_password password stored = verify_parts password (split b'$' stored)
