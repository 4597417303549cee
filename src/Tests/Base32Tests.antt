-- ===== src/Tests/Base32Tests.antt =====
-- Runs of src/pextlib1.0/base32cmd.c.
use mac_ports_fork.Base32.{answered, early_padding, encode_cmd, decode_cmd, all_hex}
use mac_ports_fork.Base32.RoundTrip.{decode_cmd-encode_cmd}
use mac_ports_fork.Base32.Answers.{IsPadded, decode_cmd-IsPadded}
use mac_ports_fork.CString.{Bytes, lower, tolower}
use mac_ports_fork.Prelude.{true, ◌+◌, ◌*◌, ◌/◌, [], ◌∷◌, ◌≡◌, refl, length, arith}
use mac_ports_fork.Prelude.Int.{pos}

-- "666F6f626172", the bytes of "foobar".
abbrev foobar : Bytes
foobar = b'6' ∷ b'6' ∷ b'6' ∷ b'F' ∷ b'6' ∷ b'f' ∷ b'6' ∷ b'2' ∷ b'6' ∷ b'1' ∷ b'7' ∷ b'2' ∷ []

-- "CPNMUOJ1E8======", from RFC 4648.
abbrev encoded_foobar : Bytes
encoded_foobar =
    b'C' ∷ b'P' ∷ b'N' ∷ b'M' ∷ b'U' ∷ b'O' ∷ b'J' ∷ b'1' ∷ b'E' ∷ b'8' ∷ b'=' ∷ b'=' ∷ b'=' ∷ b'='
    ∷ b'=' ∷ b'=' ∷ []

foobar_is_hex : all_hex foobar ≡ true
unfolding all_hex
foobar_is_hex = refl

decode_cmd-encode_cmd_example :
    (chars : Bytes) × (encode_cmd ([] ∷ foobar ∷ []) ≡ answered chars)
    × (length chars ≡ (length foobar / 2 + 4) / 5 * 8)
    × (decode_cmd ([] ∷ chars ∷ []) ≡ answered (lower foobar))
decode_cmd-encode_cmd_example = decode_cmd-encode_cmd [] [] foobar (omega arith) foobar_is_hex

rfc_vector : encode_cmd ([] ∷ foobar ∷ []) ≡ answered encoded_foobar
unfolding encode_cmd
rfc_vector = refl

-- Padding in the middle, behind one character: the message names index 1.
padding_in_front :
    decode_cmd ([] ∷ (b'C' ∷ b'=' ∷ b'N' ∷ b'M' ∷ b'U' ∷ b'O' ∷ b'J' ∷ b'1' ∷ []) ∷ [])
    ≡ early_padding (pos 1)
unfolding decode_cmd
padding_in_front = refl

decoded_foobar : decode_cmd ([] ∷ encoded_foobar ∷ []) ≡ answered (lower foobar)
unfolding decode_cmd tolower
decoded_foobar = refl

decode_cmd-IsPadded_example : IsPadded encoded_foobar
decode_cmd-IsPadded_example = decode_cmd-IsPadded [] encoded_foobar (lower foobar) decoded_foobar
