-- ===== src/CString.antt =====
-- C strings as the code uses them: a string is the list of its bytes, without the terminator.
-- `tolower`, `strncasecmp` and `strcasecmp` are the C library's, in the C locale: letters are
-- folded, and the first pair of folded bytes that differ is compared as unsigned char.
use mac_ports_fork.Prelude.{
  ℕ, zero, suc, ◌+◌, ◌<◌, ◌≡◌, refl, ◌&&◌, List, [], ◌∷◌, map, arith, leb, if◌then◌else◌, compare,
  Ordering, All,
}

abbrev pub Bytes : Type 0
Bytes = List ℕ

unfoldable pub tolower : ℕ → ℕ
tolower c = if leb b'A' c && leb c b'Z' then c + 32 else c

-- The comparison of two terminated strings over at most `n` bytes; a string that ends is smaller.
unfoldable pub strncasecmp : ℕ → Bytes → Bytes → Ordering
strncasecmp zero s t = Ordering.eq
strncasecmp (suc n) [] [] = Ordering.eq
strncasecmp (suc n) [] (d ∷ t) = Ordering.lt
strncasecmp (suc n) (c ∷ s) [] = Ordering.gt
strncasecmp (suc n) (c ∷ s) (d ∷ t) = elim (compare (tolower c) (tolower d)) [
  | Ordering.lt ↦ Ordering.lt
  | Ordering.eq ↦ strncasecmp n s t
  | Ordering.gt ↦ Ordering.gt
]

unfoldable pub strcasecmp : Bytes → Bytes → Ordering
strcasecmp [] [] = Ordering.eq
strcasecmp [] (d ∷ t) = Ordering.lt
strcasecmp (c ∷ s) [] = Ordering.gt
strcasecmp (c ∷ s) (d ∷ t) = elim (compare (tolower c) (tolower d)) [
  | Ordering.lt ↦ Ordering.lt
  | Ordering.eq ↦ strcasecmp s t
  | Ordering.gt ↦ Ordering.gt
]

-- The case-folded text, by which names are told apart.
abbrev pub lower : Bytes → Bytes
lower s = map tolower s

abbrev pub IsAscii : Bytes → Type 0
IsAscii s = All (λ c. (0 < c) × (c < 128)) s

-- `strcasecmp` is a total order on folded texts.
pub strcasecmp-eq : (s t : Bytes) → strcasecmp s t ≡ Ordering.eq → lower s ≡ lower t
unfolding strcasecmp
strcasecmp-eq [] [] h = refl
strcasecmp-eq [] (d ∷ t) h = cc
strcasecmp-eq (c ∷ s) [] h = cc
strcasecmp-eq (c ∷ s) (d ∷ t) h = ground (arith, strcasecmp-eq s t)

pub strcasecmp_refl : (s t : Bytes) → lower s ≡ lower t → strcasecmp s t ≡ Ordering.eq
unfolding strcasecmp
strcasecmp_refl [] [] h = refl
strcasecmp_refl [] (d ∷ t) h = ground arith
strcasecmp_refl (c ∷ s) [] h = ground arith
strcasecmp_refl (c ∷ s) (d ∷ t) h = ground (arith, strcasecmp_refl s t)

pub strcasecmp-flip_lt : (s t : Bytes) → strcasecmp s t ≡ Ordering.lt → strcasecmp t s ≡ Ordering.gt
unfolding strcasecmp
strcasecmp-flip_lt [] [] h = cc
strcasecmp-flip_lt [] (d ∷ t) h = refl
strcasecmp-flip_lt (c ∷ s) [] h = cc
strcasecmp-flip_lt (c ∷ s) (d ∷ t) h = ground (arith, strcasecmp-flip_lt s t)

pub strcasecmp-flip_gt : (s t : Bytes) → strcasecmp s t ≡ Ordering.gt → strcasecmp t s ≡ Ordering.lt
unfolding strcasecmp
strcasecmp-flip_gt [] [] h = cc
strcasecmp-flip_gt [] (d ∷ t) h = cc
strcasecmp-flip_gt (c ∷ s) [] h = refl
strcasecmp-flip_gt (c ∷ s) (d ∷ t) h = ground (arith, strcasecmp-flip_gt s t)

pub strcasecmp_trans :
    (s t u : Bytes)
    → strcasecmp s t ≡ Ordering.lt
    → strcasecmp t u ≡ Ordering.lt
    → strcasecmp s u ≡ Ordering.lt
unfolding strcasecmp
strcasecmp_trans [] [] u h k = cc
strcasecmp_trans [] (d ∷ t) [] h k = cc
strcasecmp_trans [] (d ∷ t) (e ∷ u) h k = refl
strcasecmp_trans (c ∷ s) [] u h k = cc
strcasecmp_trans (c ∷ s) (d ∷ t) [] h k = cc
strcasecmp_trans (c ∷ s) (d ∷ t) (e ∷ u) h k = ground (arith, strcasecmp_trans s t u)

-- Only the folded texts count.
pub strcasecmp_congr : (s t u : Bytes) → lower s ≡ lower t → strcasecmp s u ≡ strcasecmp t u
unfolding strcasecmp
strcasecmp_congr [] [] u h = refl
strcasecmp_congr [] (d ∷ t) u h = ground arith
strcasecmp_congr (c ∷ s) [] u h = ground arith
strcasecmp_congr (c ∷ s) (d ∷ t) [] h = refl
strcasecmp_congr (c ∷ s) (d ∷ t) (e ∷ u) h = ground (arith, strcasecmp_congr s t u)

pub strcasecmp_congr_right : (u s t : Bytes) → lower s ≡ lower t → strcasecmp u s ≡ strcasecmp u t
unfolding strcasecmp
strcasecmp_congr_right u [] [] h = refl
strcasecmp_congr_right u [] (d ∷ t) h = ground arith
strcasecmp_congr_right u (c ∷ s) [] h = ground arith
strcasecmp_congr_right [] (c ∷ s) (d ∷ t) h = refl
strcasecmp_congr_right (e ∷ u) (c ∷ s) (d ∷ t) h = ground (arith, strcasecmp_congr_right u s t)
