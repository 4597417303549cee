-- ===== src/Tests/VercompTests.antt =====
-- Runs of src/pextlib1.0/vercomp.c.
use mac_ports_fork.CString.{Bytes}
use mac_ports_fork.Prelude.{List, [], ◌∷◌, ◌≡◌, refl, some, arith, compare}
use mac_ports_fork.Prelude.Int.{ℤ, pos}
use mac_ports_fork.Vercomp.{
  vercmp, compare_loop, round_from, skip_others, segment, isdigit, isalpha, isalnum, compare_digits,
  first_difference,
}
use mac_ports_fork.Vercomp.Digits.{verdict, decimal, compare_digits-decimal}
use mac_ports_fork.Vercomp.Dotted.{dotted, compare_versions}
use mac_ports_fork.Vercomp.Total.{vercmp_total}
use mac_ports_fork.Vercomp.Versions.{vercmp_versions}

-- 10.4 and 10.04.11
abbrev ten_four : List Bytes
ten_four = (b'1' ∷ b'0' ∷ []) ∷ (b'4' ∷ []) ∷ []

abbrev ten_four_eleven : List Bytes
ten_four_eleven = (b'1' ∷ b'0' ∷ []) ∷ (b'0' ∷ b'4' ∷ []) ∷ (b'1' ∷ b'1' ∷ []) ∷ []

vercmp_versions_example :
    (z : ℤ) × (vercmp (dotted ten_four) (dotted ten_four_eleven) ≡ some z)
    × (verdict (some z) ≡ compare_versions ten_four ten_four_eleven)
vercmp_versions_example =
    vercmp_versions (b'1' ∷ b'0' ∷ []) (b'1' ∷ b'0' ∷ []) ((b'4' ∷ []) ∷ [])
      ((b'0' ∷ b'4' ∷ []) ∷ (b'1' ∷ b'1' ∷ []) ∷ []) (omega arith) (omega arith)

vercmp_total_example : (z : ℤ) × (vercmp (dotted ten_four) (b'x' ∷ []) ≡ some z)
vercmp_total_example = vercmp_total (dotted ten_four) (b'x' ∷ [])

compare_digits-decimal_example :
    verdict (compare_digits (b'0' ∷ b'9' ∷ []) (b'1' ∷ b'0' ∷ []))
    ≡ compare (decimal (b'0' ∷ b'9' ∷ [])) (decimal (b'1' ∷ b'0' ∷ []))
compare_digits-decimal_example =
    compare_digits-decimal (b'0' ∷ b'9' ∷ []) (b'1' ∷ b'0' ∷ []) (omega arith) (omega arith)

-- A number with nothing but a separator behind the other version: "1.0" is greater than "1.", but
-- "1." is not smaller than "1.0".
greater : vercmp (b'1' ∷ b'.' ∷ b'0' ∷ []) (b'1' ∷ b'.' ∷ []) ≡ some (pos 1)
unfolding vercmp compare_loop round_from skip_others segment isdigit isalpha isalnum compare_digits
    first_difference
greater = refl

not_smaller : vercmp (b'1' ∷ b'.' ∷ []) (b'1' ∷ b'.' ∷ b'0' ∷ []) ≡ some (pos 0)
unfolding vercmp compare_loop round_from skip_others segment isdigit isalpha isalnum compare_digits
    first_difference
not_smaller = refl

-- A segment of letters equals each of its beginnings: "1a" and "1ab".
prefix_equal : vercmp (b'1' ∷ b'a' ∷ []) (b'1' ∷ b'a' ∷ b'b' ∷ []) ≡ some (pos 0)
unfolding vercmp compare_loop round_from skip_others segment isdigit isalpha isalnum compare_digits
    first_difference
prefix_equal = refl
