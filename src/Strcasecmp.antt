-- ===== src/Strcasecmp.antt =====
-- src/pextlib1.0/strcasecmp.c: the functions that stand in for `strcasecmp` and `strncasecmp` where
-- the C library has none. A string is the list of its bytes; the byte at its end reads as 0.
pub mod Agrees
use mac_ports_fork.CString.{Bytes, tolower}
use mac_ports_fork.Prelude.{
  ℕ, ◌+◌, ◌%◌, [], ◌∷◌, Bool, true, false, not, ◌&&◌, if◌then◌else◌, ◌==◌, get_or, compare,
  Ordering,
}
use mac_ports_fork.Prelude.Int.{ℤ, pos, negsuc, sub_ℕ}

abbrev pub is_zero : ℤ → Bool
is_zero (pos n) = n == 0
is_zero (negsuc n) = false

-- `result`, for the bytes at the front of both strings.
unfoldable pub result : Bytes → Bytes → ℤ
unfolding tolower
result s t = sub_ℕ (tolower (get_or s 0 0)) (tolower (get_or t 0 0))

-- The loop; at the end of the left string it stops, and at the end of the right string alone the
-- result is not 0.
unfoldable pub xstrcasecmp : Bytes → Bytes → ℤ
unfolding tolower result
xstrcasecmp [] t = result [] t
xstrcasecmp (c ∷ s) [] = result (c ∷ s) []
xstrcasecmp (c ∷ s) (d ∷ t) =
    let rest = xstrcasecmp s t in
    if not (tolower c == 0) && is_zero (result (c ∷ s) (d ∷ t))
    then rest
    else result (c ∷ s) (d ∷ t)

-- `--inMaxChars`, for a `size_t` of 64 bits.
unfoldable pub decrement : ℕ → ℕ
decrement n = (n + 18446744073709551615) % 18446744073709551616

unfoldable pub xstrncasecmp : Bytes → Bytes → ℕ → ℤ
unfolding tolower result decrement
xstrncasecmp [] t n = result [] t
xstrncasecmp (c ∷ s) [] n = result (c ∷ s) []
xstrncasecmp (c ∷ s) (d ∷ t) n =
    let rest = xstrncasecmp s t (decrement n) in
    if not (decrement n == 0) && not (tolower c == 0) && is_zero (result (c ∷ s) (d ∷ t))
    then rest
    else result (c ∷ s) (d ∷ t)
