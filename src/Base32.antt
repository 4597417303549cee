-- ===== src/Base32.antt =====
-- src/pextlib1.0/base32cmd.c, as it is built, with BASE32HEX: the commands that turn a string of
-- hexadecimal digits into the extended hex base 32 of RFC 3548, and back. A shift to the left is a
-- product, one to the right a quotient, a mask `0x1f &` and a store into an unsigned char are
-- remainders; each `|` joins bits that do not overlap, and is a sum.
pub mod Digits
pub mod RoundTrip
pub mod Answers
use mac_ports_fork.CString.{Bytes}
use mac_ports_fork.Prelude.{
  ℕ, suc, ◌+◌, ◌-◌, ◌*◌, ◌/◌, ◌%◌, List, [], ◌∷◌, ◌++◌, Option, none, some, Bool, true, not, ◌&&◌,
  ◌||◌, if◌then◌else◌, leb, ltb, ◌==◌, length, take, get_or,
}
use mac_ports_fork.Prelude.Int.{ℤ, sub_ℕ}

unfoldable pub hex2dec : ℕ → ℕ
hex2dec c =
    if leb b'0' c && leb c b'9'
    then c - b'0'
    else if leb b'a' c && leb c b'f'
    then c - b'a' + 10
    else if leb b'A' c && leb c b'F'
    then c - b'A' + 10
    else 0

-- <ctype.h> in the C locale.
unfoldable pub isxdigit : ℕ → Bool
isxdigit c = (leb b'0' c && leb c b'9') || (leb b'a' c && leb c b'f') || (leb b'A' c && leb c b'F')

unfoldable pub all_hex : Bytes → Bool
unfolding isxdigit
all_hex [] = true
all_hex (c ∷ s) = isxdigit c && all_hex s

-- The loop that fills `buf`, over an even number of digits.
unfoldable pub from_hex : Bytes → Bytes
unfolding hex2dec
from_hex (a ∷ b ∷ s) = (hex2dec a * 16 + hex2dec b) ∷ from_hex s
from_hex _ = []

-- `map` of the encoder, "0123456789ABCDEFGHIJKLMNOPQRSTUV".
unfoldable pub to_char : ℕ → ℕ
to_char v = if ltb v 10 then b'0' + v else b'A' + (v - 10)

-- Five bytes make eight characters; one to four bytes at the end are filled up with '='.
unfoldable pub encode : Bytes → Bytes
unfolding to_char
encode [] = []
encode (a ∷ []) =
    to_char (a / 8) ∷ to_char (a * 4 % 32) ∷ b'=' ∷ b'=' ∷ b'=' ∷ b'=' ∷ b'=' ∷ b'=' ∷ []
encode (a ∷ b ∷ []) =
    to_char (a / 8)
    ∷ to_char ((a * 4 + b / 64) % 32)
    ∷ to_char (b / 2 % 32)
    ∷ to_char (b * 16 % 32)
    ∷ b'='
    ∷ b'='
    ∷ b'='
    ∷ b'='
    ∷ []
encode (a ∷ b ∷ c ∷ []) =
    to_char (a / 8)
    ∷ to_char ((a * 4 + b / 64) % 32)
    ∷ to_char (b / 2 % 32)
    ∷ to_char ((b * 16 + c / 16) % 32)
    ∷ to_char (c * 2 % 32)
    ∷ b'='
    ∷ b'='
    ∷ b'='
    ∷ []
encode (a ∷ b ∷ c ∷ d ∷ []) =
    to_char (a / 8)
    ∷ to_char ((a * 4 + b / 64) % 32)
    ∷ to_char (b / 2 % 32)
    ∷ to_char ((b * 16 + c / 16) % 32)
    ∷ to_char ((c * 2 + d / 128) % 32)
    ∷ to_char (d / 4 % 32)
    ∷ to_char (d * 8 % 32)
    ∷ b'='
    ∷ []
encode (a ∷ b ∷ c ∷ d ∷ e ∷ s) =
    to_char (a / 8)
    ∷ to_char ((a * 4 + b / 64) % 32)
    ∷ to_char (b / 2 % 32)
    ∷ to_char ((b * 16 + c / 16) % 32)
    ∷ to_char ((c * 2 + d / 128) % 32)
    ∷ to_char (d / 4 % 32)
    ∷ to_char ((d * 8 + e / 32) % 32)
    ∷ to_char (e % 32)
    ∷ encode s

-- The result of a command: the text, or the error with what its message names.
pub data Base32 : Type 0 where
  answered : Bytes → Base32
  wrong_count odd_length not_hexadecimal not_eights : Base32
  early_padding : ℤ → Base32
  invalid_char : ℕ → ℕ → Base32
  invalid_padding : ℕ → Base32

-- `Base32EncodeCmd`; `objv` has all the words of the call.
unfoldable pub encode_cmd : List Bytes → Base32
unfolding all_hex from_hex encode
encode_cmd objv =
    let digest = get_or objv 1 [] in
    if not (length objv == 2)
    then wrong_count
    else if length digest % 2 == 1
    then odd_length
    else if not (all_hex digest)
    then not_hexadecimal
    else answered (encode (from_hex digest))

-- `map` of the decoder, for characters below 128.
unfoldable pub from_char : ℕ → ℕ
from_char c =
    if leb b'0' c && leb c b'9'
    then c - b'0'
    else if leb b'A' c && leb c b'V'
    then c - b'A' + 10
    else if leb b'a' c && leb c b'v'
    then c - b'a' + 10
    else 64

-- BADCHAR.
unfoldable pub bad_char : ℕ → Bool
unfolding from_char
bad_char c = leb 128 c || (from_char c == 64)

-- A part of the decoder's loop: what it has read and the count of '=' so far, or an error.
pub data Reading : Type 0 where
  seen : Bytes → ℕ → Reading
  stopped : Base32 → Reading

abbrev pub with_value : ℕ → Reading → Reading
with_value x (seen xs pad) = seen (x ∷ xs) pad
with_value x (stopped e) = stopped e

-- The inner loop, from index `j` on.
unfoldable pub read_eight : ℕ → ℕ → Bytes → Reading
unfolding bad_char from_char
read_eight j pad [] = seen [] pad
read_eight j pad (a ∷ s) =
    let padded = with_value 0 (read_eight (suc j) (suc pad) s) in
    let value = with_value (from_char a) (read_eight (suc j) pad s) in
    if a == b'='
    then padded
    else if not (pad == 0)
    then stopped (early_padding (sub_ℕ j 1))
    else if bad_char a
    then stopped (invalid_char j a)
    else value

-- The five bytes that eight values make.
unfoldable pub five_bytes : Bytes → Bytes
five_bytes (x₀ ∷ x₁ ∷ x₂ ∷ x₃ ∷ x₄ ∷ x₅ ∷ x₆ ∷ x₇ ∷ []) =
    ((x₀ * 8 + x₁ / 4) % 256)
    ∷ ((x₁ * 64 + x₂ * 2 + x₃ / 16) % 256)
    ∷ ((x₃ * 16 + x₄ / 2) % 256)
    ∷ ((x₄ * 128 + x₅ * 4 + x₆ / 8) % 256)
    ∷ ((x₆ * 32 + x₇) % 256)
    ∷ []
five_bytes _ = []

abbrev pub behind : Bytes → Reading → Reading
behind front (seen out pad) = seen (front ++ out) pad
behind front (stopped e) = stopped e

abbrev pub then_groups : Reading → (ℕ → Reading) → Reading
then_groups (seen xs pad) k = behind (five_bytes xs) (k pad)
then_groups (stopped e) k = stopped e

-- The outer loop, eight characters at a time; their number is a multiple of eight.
unfoldable pub decode : ℕ → Bytes → Reading
unfolding read_eight five_bytes
decode pad (c₀ ∷ c₁ ∷ c₂ ∷ c₃ ∷ c₄ ∷ c₅ ∷ c₆ ∷ c₇ ∷ s) =
    then_groups (read_eight 0 pad (c₀ ∷ c₁ ∷ c₂ ∷ c₃ ∷ c₄ ∷ c₅ ∷ c₆ ∷ c₇ ∷ [])) λ p. decode p s
decode pad _ = seen [] pad

-- How many bytes at the end are only padding.
unfoldable pub unused : ℕ → Option ℕ
unused pad =
    if pad == 0
    then some 0
    else if pad == 1
    then some 1
    else if pad == 3
    then some 2
    else if pad == 4
    then some 3
    else if pad == 6
    then some 4
    else none

-- `hex`, "0123456789abcdef".
unfoldable pub hex_char : ℕ → ℕ
hex_char v = if ltb v 10 then b'0' + v else b'a' + (v - 10)

unfoldable pub to_hex : Bytes → Bytes
unfolding hex_char
to_hex [] = []
to_hex (b ∷ s) = hex_char (b / 16) ∷ hex_char (b % 16) ∷ to_hex s

-- Behind the loops.
unfoldable pub trim : Reading → Base32
unfolding unused to_hex
trim (stopped e) = e
trim (seen out pad) = elim (unused pad) [
  | none ↦ invalid_padding pad
  | some k ↦ answered (to_hex (take (length out - k) out))
]

-- `Base32DecodeCmd`.
unfoldable pub decode_cmd : List Bytes → Base32
unfolding decode trim
decode_cmd objv =
    let buf = get_or objv 1 [] in
    if not (length objv == 2)
    then wrong_count
    else if not (length buf % 8 == 0)
    then not_eights
    else trim (decode 0 buf)
