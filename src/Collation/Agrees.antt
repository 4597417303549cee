-- ===== src/Collation/Agrees.antt =====
-- The collation of src/cregistry/vercomp.c against `vercmp` of src/pextlib1.0/vercomp.c.
use mac_ports_fork.CString.{Bytes}
use mac_ports_fork.Collation.{
  skip_past, Collated, collated, out_of_fuel, current_before, round_before, collate_loop,
  sql_version,
}
use mac_ports_fork.Filemap.FilePath.{same_bytes}
use mac_ports_fork.Prelude.{
  ℕ, zero, suc, ◌+◌, [], ◌∷◌, Option, none, some, Bool, true, false, not, ◌&&◌, ◌||◌, if◌then◌else◌,
  length, ◌≡◌, refl, ap, ◌∙◌, Bool-cases, ◌⊎◌, inl, inr, arith,
}
use mac_ports_fork.Prelude.Int.{ℤ, pos, negsuc}
use mac_ports_fork.Vercomp.{
  isalnum, isalpha, isdigit, current, first_difference, compare_digits, skip_others, segment, Round,
  decided, on, round_end, round_from, compare_loop, vercmp,
}
use mac_ports_fork.Vercomp.Total.{vercmp_total}

-- A string that does not end in a separator.
abbrev pub EndsAlnum : Bytes → Type 0
EndsAlnum [] = Unit
EndsAlnum (c ∷ []) = isalnum c ≡ true
EndsAlnum (c ∷ d ∷ s) = EndsAlnum (d ∷ s)

EndsAlnum-rest : (c : ℕ) (s : Bytes) → EndsAlnum (c ∷ s) → EndsAlnum s
EndsAlnum-rest c [] h = tt
EndsAlnum-rest c (d ∷ s) h = h

EndsAlnum-skip_others : (s : Bytes) → EndsAlnum s → EndsAlnum (skip_others s)
unfolding skip_others
EndsAlnum-skip_others [] h = tt
EndsAlnum-skip_others (c ∷ s) h = elim (Bool-cases (isalnum c)) [
  | inl e ↦ rw e h
  | inr ne ↦ rw ne (EndsAlnum-skip_others s (EndsAlnum-rest c s h))
]

EndsAlnum-segment : (kind : ℕ → Bool) (s : Bytes) → EndsAlnum s → EndsAlnum (segment kind s).1
unfolding segment
EndsAlnum-segment kind [] h = tt
EndsAlnum-segment kind (c ∷ s) h = elim (Bool-cases (kind c)) [
  | inl e ↦ rw e (EndsAlnum-segment kind s (EndsAlnum-rest c s h))
  | inr ne ↦ rw ne h
]

-- Such a string has a byte at which the loop stops.
skip_past-skip_others :
    (c : ℕ) (s : Bytes) → EndsAlnum (c ∷ s) → skip_past (c ∷ s) ≡ some (skip_others (c ∷ s))
unfolding skip_past skip_others
skip_past-skip_others c [] h = rw h refl
skip_past-skip_others c (d ∷ s) h = elim (Bool-cases (isalnum c)) [
  | inl e ↦ rw e refl
  | inr ne ↦ rw ne (skip_past-skip_others d s h)
]

skip_others-EndsAlnum :
    (c : ℕ) (s : Bytes) → EndsAlnum (c ∷ s) → (d : ℕ) × (t : Bytes) × (skip_others (c ∷ s) ≡ d ∷ t)
unfolding skip_others
skip_others-EndsAlnum c [] h = (c, [], rw h refl)
skip_others-EndsAlnum c (d ∷ s) h = elim (Bool-cases (isalnum c)) [
  | inl e ↦ (c, d ∷ s, rw e refl)
  | inr ne ↦ let (x, t, e) = skip_others-EndsAlnum d s h in (x, t, rw (ne, e) refl)
]

-- The byte behind the second string is not met, or it is a separator as the terminator is.
abbrev pub IsApart : ℕ → Bytes → Type 0
IsApart behind b = EndsAlnum b ⊎ (isalnum behind ≡ false)

IsApart-skip_others : (behind : ℕ) (s : Bytes) → IsApart behind s → IsApart behind (skip_others s)
IsApart-skip_others behind s (inl h) = inl (EndsAlnum-skip_others s h)
IsApart-skip_others behind s (inr h) = inr h

IsApart-segment :
    (behind : ℕ) (kind : ℕ → Bool) (s : Bytes)
    → IsApart behind s
    → IsApart behind (segment kind s).1
IsApart-segment behind kind s (inl h) = inl (EndsAlnum-segment kind s h)
IsApart-segment behind kind s (inr h) = inr h

separator : (c : ℕ) → isalnum c ≡ false → (isdigit c ≡ false) × (isalpha c ≡ false)
unfolding isalnum
separator c h = elim (Bool-cases (isdigit c)) [
  | inl e ↦ absurd (ground arith)
  | inr ne ↦ (ne, ground arith)
]

-- A round reads of the second string what the other file's does.
round_before-round_from :
    (behind : ℕ) (a : Bytes) (d : ℕ) (b : Bytes)
    → IsApart behind (d ∷ b)
    → round_before behind a (skip_others (d ∷ b)) ≡ round_from a (skip_others (d ∷ b))
unfolding round_before round_from current_before isdigit isalpha
round_before-round_from behind a d b (inl h) =
    let (x, t, e) = skip_others-EndsAlnum d b h in rw e refl
round_before-round_from behind a d b (inr h) = at_rest (skip_others (d ∷ b))
  where
    at_rest : (s : Bytes) → round_before behind a s ≡ round_from a s
    at_rest (x ∷ t) = refl
    at_rest [] =
        let (digit, letter) = separator behind h in
        rw (round_before, round_from, current_before, digit, letter) refl

-- What a round leaves of the two strings.
unfoldable Leaves : ℕ → Round → Type 0
Leaves behind (decided z) = Unit
Leaves behind (on a b) = EndsAlnum a × IsApart behind b

either :
    (t : Bool) (behind : ℕ) (x y : Round)
    → Leaves behind x
    → Leaves behind y
    → Leaves behind (if t then x else y)
either true behind x y h k = h
either false behind x y h k = k

decided-Leaves : (behind : ℕ) (z : ℤ) → Leaves behind (decided z)
unfolding Leaves
decided-Leaves behind z = tt

round_end-Leaves :
    (behind : ℕ) (o : Option ℤ) (a b : Bytes)
    → EndsAlnum a
    → IsApart behind b
    → Leaves behind (round_end o a b)
unfolding Leaves
round_end-Leaves behind none a b h k = (h, k)
round_end-Leaves behind (some z) a b h k = tt

round_from-Leaves :
    (behind : ℕ) (a b : Bytes) → EndsAlnum a → IsApart behind b → Leaves behind (round_from a b)
unfolding round_from
round_from-Leaves behind a b h k =
    let da = isdigit (current a) in
    let db = isdigit (current b) in
    let la = isalpha (current a) in
    let lb = isalpha (current b) in
    let letters_a = segment isalpha a in
    let letters_b = segment isalpha b in
    let digits_a = segment isdigit a in
    let digits_b = segment isdigit b in
    let letters = round_end (first_difference letters_a.0 letters_b.0) letters_a.1 letters_b.1 in
    let digits = round_end (compare_digits digits_a.0 digits_b.0) digits_a.1 digits_b.1 in
    let rest = if la then letters else digits in
    let mixed = if (da && lb) || (la && db) then decided (negsuc 0) else rest in
    either (not db && da) behind (decided (pos 1)) mixed (decided-Leaves behind (pos 1)) (
      either ((da && lb) || (la && db)) behind (decided (negsuc 0)) rest
        (decided-Leaves behind (negsuc 0))
        (either la behind letters digits
          (round_end-Leaves behind (first_difference letters_a.0 letters_b.0) letters_a.1
            letters_b.1 (EndsAlnum-segment isalpha a h) (IsApart-segment behind isalpha b k))
          (round_end-Leaves behind (compare_digits digits_a.0 digits_b.0) digits_a.1 digits_b.1
            (EndsAlnum-segment isdigit a h) (IsApart-segment behind isdigit b k))))

abbrev as_collated : Option ℤ → Collated
as_collated none = out_of_fuel
as_collated (some z) = collated z

next_round :
    (behind f : ℕ) (r : Round)
    → ((a b : Bytes)
        → EndsAlnum a
        → IsApart behind b
        → collate_loop behind f a b ≡ as_collated (compare_loop f a b))
    → Leaves behind r
    → (elim r [ decided z ↦ collated z | on a b ↦ collate_loop behind f a b ])
      ≡ as_collated (elim r [ decided z ↦ some z | on a b ↦ compare_loop f a b ])
unfolding Leaves
next_round behind f (decided z) agree h = refl
next_round behind f (on a b) agree h = agree a b h.0 h.1

loops_agree :
    (behind f : ℕ) (a b : Bytes)
    → EndsAlnum a
    → IsApart behind b
    → collate_loop behind f a b ≡ as_collated (compare_loop f a b)
unfolding collate_loop compare_loop
loops_agree behind zero a b h k = refl
loops_agree behind (suc f) [] b h k = refl
loops_agree behind (suc f) (c ∷ a) [] h k = refl
loops_agree behind (suc f) (c ∷ a) (d ∷ b) h k =
    let a' = skip_others (c ∷ a) in
    let b' = skip_others (d ∷ b) in
    rw (collate_loop, skip_past-skip_others c a h, round_before-round_from behind a' d b k)
      (next_round behind f (round_from a' b') (loops_agree behind f) (
        round_from-Leaves behind a' b' (EndsAlnum-skip_others (c ∷ a) h)
          (IsApart-skip_others behind (d ∷ b) k)))

-- If the first version does not end in a separator, and the second one does not either or the byte
-- behind it is no letter or digit, the collation returns, and with the result of `vercmp` of the
-- other file.
pub sql_version-vercmp :
    (a b : Bytes) (behind : ℕ)
    → EndsAlnum a
    → IsApart behind b
    → (z : ℤ) × (sql_version a b behind ≡ collated z) × (vercmp a b ≡ some z)
sql_version-vercmp a b behind h k =
    let (z, e) = vercmp_total a b in (z, same_result ∙ ap as_collated e, e)
  where
    same_result : sql_version a b behind ≡ as_collated (vercmp a b)
    same_result = elim (Bool-cases (same_bytes a b)) [
      | inl y ↦ unfold sql_version vercmp in rw y refl
      | inr n ↦ unfold sql_version vercmp in rw n (loops_agree behind (length a + 1) a b h k)
    ]
