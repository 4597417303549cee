-- ===== src/Vercomp.antt =====
-- src/pextlib1.0/vercomp.c: `vercmp`, the comparison of version strings. A pointer into a string is
-- what is left of the string; the byte at its end reads as 0.
pub mod Digits
pub mod Total
pub mod Dotted
pub mod Versions
use mac_ports_fork.CString.{Bytes}
use mac_ports_fork.Filemap.FilePath.{same_bytes}
use mac_ports_fork.Prelude.{
  ℕ, zero, suc, ◌+◌, ◌-◌, List, [], ◌∷◌, Option, none, some, Bool, true, false, not, ◌&&◌, ◌||◌,
  if◌then◌else◌, leb, ltb, ◌==◌, length, get_or,
}
use mac_ports_fork.Prelude.Int.{ℤ, pos, negsuc, sub_ℕ}

-- <ctype.h> in the C locale.
unfoldable pub isdigit : ℕ → Bool
isdigit c = leb b'0' c && leb c b'9'

unfoldable pub isalpha : ℕ → Bool
isalpha c = (leb b'a' c && leb c b'z') || (leb b'A' c && leb c b'Z')

unfoldable pub isalnum : ℕ → Bool
unfolding isalpha isdigit
isalnum c = isalpha c || isdigit c

-- `*ptr`.
abbrev pub current : Bytes → ℕ
current s = get_or s 0 0

unfoldable pub skip_others : Bytes → Bytes
unfolding isalnum
skip_others [] = []
skip_others (c ∷ s) = let skipped = skip_others s in if isalnum c then c ∷ s else skipped

-- The longest segment of bytes of one kind, and what follows it.
unfoldable pub segment : (ℕ → Bool) → Bytes → Bytes × Bytes
segment kind [] = ([], [])
segment kind (c ∷ s) =
    let (part, rest) = segment kind s in if kind c then (c ∷ part, rest) else ([], c ∷ s)

unfoldable pub skip_zeros : Bytes → Bytes
skip_zeros [] = []
skip_zeros (c ∷ s) = let skipped = skip_zeros s in if c == b'0' then skipped else c ∷ s

-- The last comparison of a round: the first pair of bytes that differ, if neither segment has ended.
unfoldable pub first_difference : Bytes → Bytes → Option ℤ
first_difference [] t = none
first_difference (c ∷ s) [] = none
first_difference (c ∷ s) (d ∷ t) =
    let later = first_difference s t in if c == d then later else some (sub_ℕ c d)

-- Two numbers without leading zeros: first by their lengths.
unfoldable pub compare_stripped : Bytes → Bytes → Option ℤ
unfolding first_difference
compare_stripped a b =
    if ltb (length b) (length a)
    then some (pos 1)
    else if ltb (length a) (length b)
    then some (negsuc 0)
    else first_difference a b

-- A segment of digits.
unfoldable pub compare_digits : Bytes → Bytes → Option ℤ
unfolding skip_zeros compare_stripped
compare_digits s t = compare_stripped (skip_zeros s) (skip_zeros t)

-- One round of the loop: a result, or what is left of both strings.
pub data Round : Type 0 where
  decided : ℤ → Round
  on : Bytes → Bytes → Round

abbrev pub round_end : Option ℤ → Bytes → Bytes → Round
round_end none a b = on a b
round_end (some z) a b = decided z

unfoldable pub round_from : Bytes → Bytes → Round
round_from a b =
    let letters_a = segment isalpha a in
    let letters_b = segment isalpha b in
    let digits_a = segment isdigit a in
    let digits_b = segment isdigit b in
    if not (isdigit (current b)) && isdigit (current a)
    then decided (pos 1)
    else if (isdigit (current a) && isalpha (current b))
        || (isalpha (current a) && isdigit (current b))
    then decided (negsuc 0)
    else if isalpha (current a)
    then round_end (first_difference letters_a.0 letters_b.0) letters_a.1 letters_b.1
    else round_end (compare_digits digits_a.0 digits_b.0) digits_a.1 digits_b.1

-- Behind the loop.
abbrev pub at_end : Bytes → Bytes → ℤ
at_end [] [] = pos 0
at_end (c ∷ a) b = pos 1
at_end [] (d ∷ b) = negsuc 0

-- The loop, on fuel; each round shortens the first string.
unfoldable pub compare_loop : ℕ → Bytes → Bytes → Option ℤ
compare_loop zero a b = none
compare_loop (suc f) [] b = some (at_end [] b)
compare_loop (suc f) (c ∷ a) [] = some (pos 1)
compare_loop (suc f) (c ∷ a) (d ∷ b) =
    elim (round_from (skip_others (c ∷ a)) (skip_others (d ∷ b))) [
      | decided z ↦ some z
      | on a' b' ↦ compare_loop f a' b'
    ]

unfoldable pub vercmp : Bytes → Bytes → Option ℤ
vercmp a b =
    let compared = compare_loop (length a + 1) a b in
    if same_bytes a b then some (pos 0) else compared
