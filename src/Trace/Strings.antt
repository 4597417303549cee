-- ===== src/Trace/Strings.antt =====
-- Memory of C strings, one behind the other, as both sides of the trace socket keep it.
use mac_ports_fork.CString.{Bytes}
use mac_ports_fork.Prelude.{
  zero, suc, ◌<◌, ◌≡◌, refl, List, [], ◌∷◌, ◌++◌, Option, none, some, Bool, true, false, ◌==◌,
  arith, All,
}

-- The string at the front of a block, up to its terminator.
unfoldable pub string_at : Bytes → Bytes
string_at [] = []
string_at (c ∷ s) = elim (c == 0) [ true ↦ [] | false ↦ c ∷ string_at s ]

-- What is behind that terminator: `t + strlen(t) + 1`.
unfoldable pub behind_string : Bytes → Bytes
behind_string [] = []
behind_string (c ∷ s) = elim (c == 0) [ true ↦ s | false ↦ behind_string s ]

-- `for (t = block; *t; t += strlen(t) + 1)`: the strings up to the first that is empty, with the
-- bytes of the one that is being read; `none` if the block ends before.
unfoldable pub strings_from : Bytes → Bytes → Option (List Bytes)
strings_from part [] = none
strings_from part (c ∷ s) = elim (c == 0) [
  | false ↦ strings_from (part ++ c ∷ []) s
  | true ↦ elim part [
    | [] ↦ some []
    | d ∷ ds ↦ elim (strings_from [] s) [ none ↦ none | some more ↦ some ((d ∷ ds) ∷ more) ]
  ]
]

unfoldable pub strings : Bytes → Option (List Bytes)
unfolding strings_from
strings block = strings_from [] block

-- Bytes that hold no terminator.
abbrev pub IsText : Bytes → Type 0
IsText s = All (λ c. 0 < c) s

-- A string in which something stands.
abbrev pub IsWord : Bytes → Type 0
IsWord [] = ⊥
IsWord (c ∷ s) = IsText (c ∷ s)

-- The test for strings that the source writes out.
abbrev pub is_text : Bytes → Bool
is_text [] = true
is_text (zero ∷ s) = false
is_text (suc c ∷ s) = is_text s

pub is_text-IsText : (s : Bytes) → is_text s ≡ true → IsText s
is_text-IsText [] h = tt
is_text-IsText (zero ∷ s) h = ground (arith, h)
is_text-IsText (suc c ∷ s) h = (omega arith, is_text-IsText s h)

pub string_at-append : (s rest : Bytes) → IsText s → string_at (s ++ 0 ∷ rest) ≡ s
unfolding string_at
string_at-append [] rest h = refl
string_at-append (c ∷ s) rest h = ground (arith, string_at-append s rest h.1)

pub behind_string-append : (s rest : Bytes) → IsText s → behind_string (s ++ 0 ∷ rest) ≡ rest
unfolding behind_string
behind_string-append [] rest h = refl
behind_string-append (c ∷ s) rest h = ground (arith, behind_string-append s rest h.1)
