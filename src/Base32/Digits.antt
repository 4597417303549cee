-- ===== src/Base32/Digits.antt =====
-- The digits of src/pextlib1.0/base32cmd.c: hexadecimal ones, and the characters for five bits.
use mac_ports_fork.Base32.{
  hex2dec, isxdigit, all_hex, from_hex, to_char, from_char, bad_char, hex_char, to_hex,
}
use mac_ports_fork.CString.{Bytes, tolower, lower}
use mac_ports_fork.Prelude.{
  ℕ, zero, suc, ◌+◌, ◌*◌, ◌/◌, ◌%◌, ◌<◌, ◌≡◌, refl, [], ◌∷◌, ◌&&◌, Bool, true, false, ◌==◌, arith,
  All, length,
}

-- `n` times the same byte.
abbrev pub filled : ℕ → ℕ → Bytes
filled zero c = []
filled (suc n) c = c ∷ filled n c

-- A character of the encoding is read back as its value, and is neither refused nor padding.
pub from_char-to_char : (v : ℕ) → v < 32 → from_char (to_char v) ≡ v
unfolding from_char to_char
from_char-to_char v h = ground arith

pub bad_char-to_char : (v : ℕ) → v < 32 → bad_char (to_char v) ≡ false
unfolding bad_char from_char to_char
bad_char-to_char v h = ground arith

pub to_char_not_padding : (v : ℕ) → v < 32 → (to_char v == b'=') ≡ false
unfolding to_char
to_char_not_padding v h = ground arith

hex_char-hex2dec : (c : ℕ) → isxdigit c ≡ true → hex_char (hex2dec c) ≡ tolower c
unfolding hex_char hex2dec tolower isxdigit
hex_char-hex2dec c h = ground arith

hex2dec_bound : (c : ℕ) → hex2dec c < 16
unfolding hex2dec
hex2dec_bound c = ground arith

both : (a b : Bool) → (a && b) ≡ true → (a ≡ true) × (b ≡ true)
both a b h = ground arith

high_digit : (x y : ℕ) → y < 16 → (x * 16 + y) / 16 ≡ x
high_digit x y h = omega arith

low_digit : (x y : ℕ) → y < 16 → (x * 16 + y) % 16 ≡ y
low_digit x y h = omega arith

pub from_hex-All : (s : Bytes) → All (λ b. b < 256) (from_hex s)
unfolding from_hex
from_hex-All [] = tt
from_hex-All (a ∷ []) = tt
from_hex-All (a ∷ b ∷ s) = (omega (arith, hex2dec_bound a, hex2dec_bound b), from_hex-All s)

pub length-from_hex : (s : Bytes) → length (from_hex s) ≡ length s / 2
unfolding from_hex
length-from_hex [] = omega arith
length-from_hex (a ∷ []) = omega arith
length-from_hex (a ∷ b ∷ s) = omega (arith, length-from_hex s)

-- An even number of hexadecimal digits, through bytes and back, comes out in lower case.
pub to_hex-from_hex :
    (s : Bytes) → length s % 2 ≡ 0 → all_hex s ≡ true → to_hex (from_hex s) ≡ lower s
unfolding to_hex from_hex all_hex
to_hex-from_hex [] e h = refl
to_hex-from_hex (a ∷ []) e h = absurd (omega arith)
to_hex-from_hex (a ∷ b ∷ s) e h =
    let (ha, hs) = both (isxdigit a) (isxdigit b && all_hex s) h in
    let (hb, ht) = both (isxdigit b) (all_hex s) hs in
    rw
      (
        high_digit (hex2dec a) (hex2dec b) (hex2dec_bound b),
        low_digit (hex2dec a) (hex2dec b) (hex2dec_bound b),
        hex_char-hex2dec a ha,
        hex_char-hex2dec b hb,
        to_hex-from_hex s (omega arith) ht,
      )
      refl
