-- ===== src/Base64.antt =====
-- common/base64.cpp. Bytes are numbers below 256; the decoder's `int` is kept to 32 bits.
pub mod RoundTrip
use studio_bondage_club.Prelude.{
  ℕ, zero, suc, ◌+◌, ◌-◌, ◌*◌, ◌/◌, ◌%◌, ◌^◌, Bool, true, false, ◌&&◌, Option, none, some, List, [],
  ◌∷◌, Str, ltb, leb, ◌==◌, if◌then◌else◌,
}

-- The table `kEnc` and the table of `make_dec_table`, where `none` is -1.
unfoldable pub enc : ℕ → ℕ
enc i =
    if ltb i 26
    then b'A' + i
    else if ltb i 52
    then b'a' + (i - 26)
    else if ltb i 62
    then b'0' + (i - 52)
    else if i == 62
    then b'+'
    else b'/'

unfoldable pub dec : ℕ → Option ℕ
dec c =
    if leb b'A' c && leb c b'Z'
    then some (c - b'A')
    else if leb b'a' c && leb c b'z'
    then some (c - b'a' + 26)
    else if leb b'0' c && leb c b'9'
    then some (c - b'0' + 52)
    else if c == b'+'
    then some 62
    else if c == b'/'
    then some 63
    else none

-- `kEnc[(n >> k) & 63]`.
abbrev pub sextet : ℕ → ℕ → ℕ
sextet n k = enc (n / 2 ^ k % 64)

unfoldable pub base64_encode : Str → Str
unfolding enc
base64_encode [] = []
base64_encode (a ∷ []) = let n = a * 2 ^ 16 in sextet n 18 ∷ sextet n 12 ∷ b'=' ∷ b'=' ∷ []
base64_encode (a ∷ b ∷ []) =
    let n = a * 2 ^ 16 + b * 2 ^ 8 in sextet n 18 ∷ sextet n 12 ∷ sextet n 6 ∷ b'=' ∷ []
base64_encode (a ∷ b ∷ c ∷ s) =
    let n = a * 2 ^ 16 + b * 2 ^ 8 + c in
    sextet n 18 ∷ sextet n 12 ∷ sextet n 6 ∷ enc (n % 64) ∷ base64_encode s

-- `buf << 6 | v`.
unfoldable pub shift_in : ℕ → ℕ → ℕ
shift_in buf v = (buf * 64 + v) % 2 ^ 32

-- The loop, with the buffer and the number of its bits that are not written yet.
unfoldable pub decode_from : ℕ → ℕ → Str → Str
unfolding dec shift_in
decode_from buf bits [] = []
decode_from buf bits (c ∷ s) =
    let skipped = decode_from buf bits s in
    if c == b'=' then [] else elim (dec c) [
      | none ↦ skipped
      | some v ↦
          let full = decode_from (shift_in buf v) (bits + 6 - 8) s in
          let more = decode_from (shift_in buf v) (bits + 6) s in
          if leb 8 (bits + 6) then shift_in buf v / 2 ^ (bits + 6 - 8) % 256 ∷ full else more
    ]

unfoldable pub base64_decode : Str → Str
base64_decode s = decode_from 0 0 s
