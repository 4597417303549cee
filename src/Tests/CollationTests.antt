-- ===== src/Tests/CollationTests.antt =====
-- Runs of src/cregistry/vercomp.c.
use mac_ports_fork.CString.{Bytes}
use mac_ports_fork.Collation.{
  current_before, round_before, skip_past, collated, past_end, collate_loop, sql_version,
}
use mac_ports_fork.Collation.Agrees.{EndsAlnum, sql_version-vercmp}
use mac_ports_fork.Prelude.{[], ◌∷◌, ◌≡◌, refl, some, inl}
use mac_ports_fork.Prelude.Int.{ℤ, pos, negsuc}
use mac_ports_fork.Vercomp.{
  vercmp, isalnum, isalpha, isdigit, segment, skip_others, compare_digits, compare_stripped,
  skip_zeros, first_difference,
}

-- "1.10" and "1.9".
abbrev one_ten : Bytes
one_ten = b'1' ∷ b'.' ∷ b'1' ∷ b'0' ∷ []

abbrev one_nine : Bytes
one_nine = b'1' ∷ b'.' ∷ b'9' ∷ []

one_ten-EndsAlnum : EndsAlnum one_ten
unfolding isalnum
one_ten-EndsAlnum = refl

one_nine-EndsAlnum : EndsAlnum one_nine
unfolding isalnum
one_nine-EndsAlnum = refl

sql_version-vercmp_example :
    (z : ℤ) × (sql_version one_ten one_nine b'7' ≡ collated z) × (vercmp one_ten one_nine ≡ some z)
sql_version-vercmp_example =
    sql_version-vercmp one_ten one_nine b'7' one_ten-EndsAlnum (inl one_nine-EndsAlnum)

-- "1." against "1.9": the loop runs out of the first string.
runs_out : sql_version (b'1' ∷ b'.' ∷ []) one_nine 0 ≡ past_end
unfolding sql_version collate_loop skip_past round_before segment skip_others isalnum isalpha
    isdigit compare_digits compare_stripped skip_zeros first_difference current_before
runs_out = refl

-- "1.a5" against "1.": the answer depends on the byte behind the second string.
abbrev one_letter : Bytes
one_letter = b'1' ∷ b'.' ∷ b'a' ∷ b'5' ∷ []

behind_zero : sql_version one_letter (b'1' ∷ b'.' ∷ []) 0 ≡ collated (pos 1)
unfolding sql_version collate_loop skip_past round_before segment skip_others isalnum isalpha
    isdigit compare_digits compare_stripped skip_zeros first_difference current_before
behind_zero = refl

behind_digit : sql_version one_letter (b'1' ∷ b'.' ∷ []) b'7' ≡ collated (negsuc 0)
unfolding sql_version collate_loop skip_past round_before segment skip_others isalnum isalpha
    isdigit compare_digits compare_stripped skip_zeros first_difference current_before
behind_digit = refl
