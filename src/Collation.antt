-- ===== src/Collation.antt =====
-- src/cregistry/vercomp.c: `vercmp` with the lengths of its strings, and `sql_version`, the collation
-- that SQLite is given. It is a copy of `vercmp` of src/pextlib1.0/vercomp.c in which a pointer is
-- compared with the string's end, where that one looks for the terminator; what is alike is named
-- alike. SQLite promises no terminator, and the byte behind the second string, which is read before
-- the end is tested, is an argument. In one loop the pointer into the first string is compared with
-- the end of the second, which it never meets: that loop may run past its own end.
pub mod Agrees
use mac_ports_fork.CString.{Bytes}
use mac_ports_fork.Filemap.FilePath.{same_bytes}
use mac_ports_fork.Prelude.{
  ℕ, zero, suc, ◌+◌, [], ◌∷◌, Option, none, some, not, ◌&&◌, ◌||◌, if◌then◌else◌, length,
}
use mac_ports_fork.Prelude.Int.{ℤ, pos, negsuc}
use mac_ports_fork.Vercomp.{
  isalnum, isalpha, isdigit, current, segment, first_difference, compare_digits, Round, round_end,
  skip_others, decided, on, at_end,
}

-- The loop over the first string's other characters; `none` where it leaves the string.
unfoldable pub skip_past : Bytes → Option Bytes
skip_past [] = none
skip_past (c ∷ s) = let skipped = skip_past s in if isalnum c then some (c ∷ s) else skipped

pub data Collated : Type 0 where
  collated : ℤ → Collated
  past_end out_of_fuel : Collated

-- The byte that a pointer into the second string is at: behind the string, the one that follows it.
unfoldable pub current_before : ℕ → Bytes → ℕ
current_before behind [] = behind
current_before behind (c ∷ s) = c

-- A round from the two segments on, which reads the second string's byte before its end is tested.
unfoldable pub round_before : ℕ → Bytes → Bytes → Round
unfolding current_before
round_before behind a b =
    let letters_a = segment isalpha a in
    let letters_b = segment isalpha b in
    let digits_a = segment isdigit a in
    let digits_b = segment isdigit b in
    let c = current a in
    let d = current_before behind b in
    if not (isdigit d) && isdigit c
    then decided (pos 1)
    else if (isdigit c && isalpha d) || (isalpha c && isdigit d)
    then decided (negsuc 0)
    else if isalpha c
    then round_end (first_difference letters_a.0 letters_b.0) letters_a.1 letters_b.1
    else round_end (compare_digits digits_a.0 digits_b.0) digits_a.1 digits_b.1

unfoldable pub collate_loop : ℕ → ℕ → Bytes → Bytes → Collated
unfolding skip_past round_before
collate_loop behind zero a b = out_of_fuel
collate_loop behind (suc f) [] b = collated (at_end [] b)
collate_loop behind (suc f) (c ∷ a) [] = collated (pos 1)
collate_loop behind (suc f) (c ∷ a) (d ∷ b) = elim (skip_past (c ∷ a)) [
  | none ↦ past_end
  | some a' ↦ elim (round_before behind a' (skip_others (d ∷ b))) [
    | decided z ↦ collated z
    | on a'' b'' ↦ collate_loop behind f a'' b''
  ]
]

-- `sql_version`, which only calls `vercmp` of its file; last, the byte behind the second string.
unfoldable pub sql_version : Bytes → Bytes → ℕ → Collated
unfolding collate_loop
sql_version a b behind =
    let compared = collate_loop behind (length a + 1) a b in
    if same_bytes a b then collated (pos 0) else compared
