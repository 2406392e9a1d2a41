-- ===== src/Base64/RoundTrip.antt =====
-- What is encoded is decoded again (common/base64.cpp).
use studio_bondage_club.Prelude.{
  ℕ, ◌+◌, ◌*◌, ◌/◌, ◌%◌, ◌^◌, ◌<◌, ◌≡◌, refl, ap, ◌∙◌, false, some, [], ◌∷◌, Str, ◌==◌, arith,
}
use studio_bondage_club.Base64.{enc, dec, base64_encode, base64_decode, decode_from, shift_in}

dec-enc : (i : ℕ) → i < 64 → dec (enc i) ≡ some i
unfolding enc dec
dec-enc i h = ground arith

enc-pad : (i : ℕ) → i < 64 → (enc i == b'=') ≡ false
unfolding enc
enc-pad i h = ground arith

-- A sextet that fills the buffer, and one that completes a byte.
decode-none :
    (i buf : ℕ) (s : Str)
    → i < 64
    → decode_from buf 0 (enc i ∷ s) ≡ decode_from (shift_in buf i) 6 s
unfolding decode_from
decode-none i buf s h = rw (enc-pad i h, dec-enc i h) refl

decode-first :
    (i buf : ℕ) (s : Str)
    → i < 64
    → decode_from buf 6 (enc i ∷ s) ≡ (shift_in buf i / 16 % 256) ∷ decode_from (shift_in buf i) 4 s
unfolding decode_from
decode-first i buf s h = rw (enc-pad i h, dec-enc i h) refl

decode-second :
    (i buf : ℕ) (s : Str)
    → i < 64
    → decode_from buf 4 (enc i ∷ s) ≡ (shift_in buf i / 4 % 256) ∷ decode_from (shift_in buf i) 2 s
unfolding decode_from
decode-second i buf s h = rw (enc-pad i h, dec-enc i h) refl

decode-third :
    (i buf : ℕ) (s : Str)
    → i < 64
    → decode_from buf 2 (enc i ∷ s) ≡ (shift_in buf i / 1 % 256) ∷ decode_from (shift_in buf i) 0 s
unfolding decode_from
decode-third i buf s h = rw (enc-pad i h, dec-enc i h) refl

decode-pad : (buf bits : ℕ) (s : Str) → decode_from buf bits (b'=' ∷ s) ≡ []
unfolding decode_from
decode-pad buf bits s = refl

-- The bytes that come out, whatever the buffer held.
first_byte :
    (buf x y : ℕ) → x < 64 → y < 64 → shift_in (shift_in buf x) y / 16 % 256 ≡ x * 4 + y / 16
unfolding shift_in
first_byte buf x y hx hy = omega arith

second_byte :
    (buf x y : ℕ) → x < 64 → y < 64 → shift_in (shift_in buf x) y / 4 % 256 ≡ x % 16 * 16 + y / 4
unfolding shift_in
second_byte buf x y hx hy = omega arith

third_byte :
    (buf x y : ℕ) → x < 64 → y < 64 → shift_in (shift_in buf x) y / 1 % 256 ≡ x % 4 * 64 + y
unfolding shift_in
third_byte buf x y hx hy = omega arith

-- The buffer after two, three and four sextets.
abbrev in2 : ℕ → ℕ → ℕ → ℕ
in2 buf w x = shift_in (shift_in buf w) x

abbrev in3 : ℕ → ℕ → ℕ → ℕ → ℕ
in3 buf w x y = shift_in (in2 buf w x) y

decode-two :
    (buf w x : ℕ) (s : Str)
    → w < 64
    → x < 64
    → decode_from buf 0 (enc w ∷ enc x ∷ s) ≡ (w * 4 + x / 16) ∷ decode_from (in2 buf w x) 4 s
decode-two buf w x s hw hx =
    decode-none w buf (enc x ∷ s) hw
    ∙ decode-first x (shift_in buf w) s hx
    ∙ ap (λ b. b ∷ decode_from (in2 buf w x) 4 s) (first_byte buf w x hw hx)

decode-three :
    (buf w x y : ℕ) (s : Str)
    → w < 64
    → x < 64
    → y < 64
    → decode_from buf 0 (enc w ∷ enc x ∷ enc y ∷ s)
      ≡ (w * 4 + x / 16) ∷ (x % 16 * 16 + y / 4) ∷ decode_from (in3 buf w x y) 2 s
decode-three buf w x y s hw hx hy =
    decode-two buf w x (enc y ∷ s) hw hx
    ∙ ap (λ t. (w * 4 + x / 16) ∷ t)
        (decode-second y (in2 buf w x) s hy
          ∙ ap (λ b. b ∷ decode_from (in3 buf w x y) 2 s) (second_byte (shift_in buf w) x y hx hy))

decode-four :
    (buf w x y z : ℕ) (s : Str)
    → w < 64
    → x < 64
    → y < 64
    → z < 64
    → decode_from buf 0 (enc w ∷ enc x ∷ enc y ∷ enc z ∷ s)
      ≡ (w * 4 + x / 16)
        ∷ (x % 16 * 16 + y / 4)
        ∷ (y % 4 * 64 + z)
        ∷ decode_from (shift_in (in3 buf w x y) z) 0 s
decode-four buf w x y z s hw hx hy hz =
    decode-three buf w x y (enc z ∷ s) hw hx hy
    ∙ ap (λ t. (w * 4 + x / 16) ∷ (x % 16 * 16 + y / 4) ∷ t)
        (decode-third z (in3 buf w x y) s hz
          ∙ ap (λ b. b ∷ decode_from (shift_in (in3 buf w x y) z) 0 s)
              (third_byte (in2 buf w x) y z hy hz))

-- The bytes of three sextets each are the bytes that were encoded.
upper :
    (a b c : ℕ)
    → a < 256
    → b < 256
    → c < 256
    → (a * 2 ^ 16 + b * 2 ^ 8 + c) / 2 ^ 18 % 64 * 4
        + (a * 2 ^ 16 + b * 2 ^ 8 + c) / 2 ^ 12 % 64 / 16
      ≡ a
upper a b c ha hb hc = omega arith

middle :
    (a b c : ℕ)
    → a < 256
    → b < 256
    → c < 256
    → (a * 2 ^ 16 + b * 2 ^ 8 + c) / 2 ^ 12 % 64 % 16 * 16
        + (a * 2 ^ 16 + b * 2 ^ 8 + c) / 2 ^ 6 % 64 / 4
      ≡ b
middle a b c ha hb hc = omega arith

lower :
    (a b c : ℕ)
    → a < 256
    → b < 256
    → c < 256
    → (a * 2 ^ 16 + b * 2 ^ 8 + c) / 2 ^ 6 % 64 % 4 * 64 + (a * 2 ^ 16 + b * 2 ^ 8 + c) % 64 ≡ c
lower a b c ha hb hc = omega arith

six_bits : (n : ℕ) → n % 64 < 64
six_bits n = omega arith

one_left : (a : ℕ) → a < 256 → a * 2 ^ 16 / 2 ^ 18 % 64 * 4 + a * 2 ^ 16 / 2 ^ 12 % 64 / 16 ≡ a
one_left a ha = omega arith

two_upper :
    (a b : ℕ)
    → a < 256
    → b < 256
    → (a * 2 ^ 16 + b * 2 ^ 8) / 2 ^ 18 % 64 * 4 + (a * 2 ^ 16 + b * 2 ^ 8) / 2 ^ 12 % 64 / 16 ≡ a
two_upper a b ha hb = omega arith

two_lower :
    (a b : ℕ)
    → a < 256
    → b < 256
    → (a * 2 ^ 16 + b * 2 ^ 8) / 2 ^ 12 % 64 % 16 * 16 + (a * 2 ^ 16 + b * 2 ^ 8) / 2 ^ 6 % 64 / 4
      ≡ b
two_lower a b ha hb = omega arith

abbrev pub AllBytes : Str → Type 0
AllBytes [] = Unit
AllBytes (c ∷ s) = (c < 256) × AllBytes s

decode_from-encode : (buf : ℕ) (s : Str) → AllBytes s → decode_from buf 0 (base64_encode s) ≡ s
unfolding base64_encode decode_from
decode_from-encode buf [] h = refl
decode_from-encode buf (a ∷ []) h =
    decode-two buf (a * 2 ^ 16 / 2 ^ 18 % 64) (a * 2 ^ 16 / 2 ^ 12 % 64) (b'=' ∷ b'=' ∷ [])
      (six_bits (a * 2 ^ 16 / 2 ^ 18)) (six_bits (a * 2 ^ 16 / 2 ^ 12))
    ∙ ap (λ x. x ∷ []) (one_left a h.0)
decode_from-encode buf (a ∷ b ∷ []) h =
    let n = a * 2 ^ 16 + b * 2 ^ 8 in
    decode-three buf (n / 2 ^ 18 % 64) (n / 2 ^ 12 % 64) (n / 2 ^ 6 % 64) (b'=' ∷ [])
      (six_bits (n / 2 ^ 18)) (six_bits (n / 2 ^ 12)) (six_bits (n / 2 ^ 6))
    ∙ ap (λ x. x ∷ (n / 2 ^ 12 % 64 % 16 * 16 + n / 2 ^ 6 % 64 / 4) ∷ []) (two_upper a b h.0 h.1.0)
    ∙ ap (λ y. a ∷ y ∷ []) (two_lower a b h.0 h.1.0)
decode_from-encode buf (a ∷ b ∷ c ∷ s) h =
    let n = a * 2 ^ 16 + b * 2 ^ 8 + c in
    let rest =
      decode_from-encode
        (shift_in (in3 buf (n / 2 ^ 18 % 64) (n / 2 ^ 12 % 64) (n / 2 ^ 6 % 64)) (n % 64)) s
        h.1.1.1 in
    decode-four buf (n / 2 ^ 18 % 64) (n / 2 ^ 12 % 64) (n / 2 ^ 6 % 64) (n % 64) (base64_encode s)
      (six_bits (n / 2 ^ 18)) (six_bits (n / 2 ^ 12)) (six_bits (n / 2 ^ 6)) (six_bits n)
    ∙ rw
        (
          upper a b c h.0 h.1.0 h.1.1.0,
          middle a b c h.0 h.1.0 h.1.1.0,
          lower a b c h.0 h.1.0 h.1.1.0,
          rest,
        )
        refl

-- Whatever bytes are encoded, the decoder gives them back.
pub base64_decode-base64_encode : (s : Str) → AllBytes s → base64_decode (base64_encode s) ≡ s
unfolding base64_decode
base64_decode-base64_encode s h = decode_from-encode 0 s h
