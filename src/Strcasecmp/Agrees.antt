-- ===== src/Strcasecmp/Agrees.antt =====
-- The functions of src/pextlib1.0/strcasecmp.c against those of the C library.
use mac_ports_fork.CString.{Bytes, tolower, strcasecmp, strncasecmp, IsAscii}
use mac_ports_fork.Strcasecmp.{is_zero, result, xstrcasecmp, decrement, xstrncasecmp}
use mac_ports_fork.Prelude.{
  ℕ, zero, suc, ◌<◌, ◌≡◌, refl, ◌∙◌, [], ◌∷◌, false, not, ◌&&◌, ◌==◌, arith, length, compare,
  Ordering, if◌then◌else◌,
}
use mac_ports_fork.Prelude.Int.{ℤ, pos, negsuc, sub_ℕ}

-- The sign of a result, which is all that the callers look at.
abbrev pub sign : ℤ → Ordering
sign (pos n) = compare n 0
sign (negsuc n) = Ordering.lt

-- For ASCII strings, the sign of `xstrcasecmp` is that of `strcasecmp`.
pub xstrcasecmp-strcasecmp :
    (s t : Bytes) → IsAscii s → IsAscii t → sign (xstrcasecmp s t) ≡ strcasecmp s t
unfolding xstrcasecmp strcasecmp result tolower
xstrcasecmp-strcasecmp [] [] h k = refl
xstrcasecmp-strcasecmp [] (d ∷ t) h k = ground arith
xstrcasecmp-strcasecmp (c ∷ s) [] h k = ground arith
xstrcasecmp-strcasecmp (c ∷ s) (d ∷ t) h k = ground (arith, xstrcasecmp-strcasecmp s t h.1 k.1)

decrement_lem : (n : ℕ) → suc n < 18446744073709551616 → decrement (suc n) ≡ n
unfolding decrement
decrement_lem n h = omega arith

-- A maximum beyond the end of the left string does not matter.
strncasecmp-strcasecmp : (n : ℕ) (s t : Bytes) → length s < n → strncasecmp n s t ≡ strcasecmp s t
unfolding strncasecmp strcasecmp
strncasecmp-strcasecmp zero s t h = absurd (omega arith)
strncasecmp-strcasecmp (suc n) [] [] h = refl
strncasecmp-strcasecmp (suc n) [] (d ∷ t) h = refl
strncasecmp-strcasecmp (suc n) (c ∷ s) [] h = refl
strncasecmp-strcasecmp (suc n) (c ∷ s) (d ∷ t) h =
    ground (arith, strncasecmp-strcasecmp n s t (omega arith))

tolower_pos : (c : ℕ) → 0 < c → 0 < tolower c
unfolding tolower
tolower_pos c h = ground arith

tolower_zero : tolower 0 ≡ 0
unfolding tolower
tolower_zero = refl

nonzero : (n : ℕ) → (suc n == 0) ≡ false
nonzero n = ground arith

-- One pair of folded bytes, with a rest that agrees.
pair :
    (x y : ℕ) (r : ℤ) (o : Ordering)
    → 0 < x
    → sign r ≡ o
    → sign (if not (x == 0) && is_zero (sub_ℕ x y) then r else sub_ℕ x y) ≡ elim (compare x y) [
      | Ordering.lt ↦ Ordering.lt
      | Ordering.eq ↦ o
      | Ordering.gt ↦ Ordering.gt
    ]
pair x y r o h e = ground arith

up_to :
    (n : ℕ) (s t : Bytes)
    → suc n < 18446744073709551616
    → IsAscii s
    → IsAscii t
    → sign (xstrncasecmp s t (suc n)) ≡ strncasecmp (suc n) s t
unfolding xstrncasecmp strncasecmp result
up_to n [] [] l h k = refl
up_to n [] (d ∷ t) l h k = ground (arith, tolower_pos d k.0.0, tolower_zero)
up_to n (c ∷ s) [] l h k = ground (arith, tolower_pos c h.0.0, tolower_zero)
up_to zero (c ∷ s) (d ∷ t) l h k = ground (arith, decrement_lem 0 l)
up_to (suc n) (c ∷ s) (d ∷ t) l h k =
    rw (decrement_lem (suc n) l, nonzero n)
      (pair (tolower c) (tolower d) (xstrncasecmp s t (suc n)) (strncasecmp (suc n) s t)
        (tolower_pos c h.0.0) (up_to n s t (omega arith) h.1 k.1))

wrapped : decrement 0 ≡ 18446744073709551615
unfolding decrement
wrapped = refl

unlimited :
    (s t : Bytes)
    → length s < 18446744073709551615
    → IsAscii s
    → IsAscii t
    → sign (xstrncasecmp s t 0) ≡ strcasecmp s t
unfolding xstrncasecmp strcasecmp result tolower
unlimited [] [] m h k = refl
unlimited [] (d ∷ t) m h k = ground arith
unlimited (c ∷ s) [] m h k = ground arith
unlimited (c ∷ s) (d ∷ t) m h k =
    let rest : sign (xstrncasecmp s t (decrement 0)) ≡ strcasecmp s t = rw wrapped (
      up_to 18446744073709551614 s t (omega arith) h.1 k.1
      ∙ strncasecmp-strcasecmp 18446744073709551615 s t (omega arith)) in
    ground (arith, rest, wrapped)

-- For ASCII strings, the left one shorter than 2 ^ 64 - 1, and any maximum that a `size_t` holds: the
-- sign of `xstrncasecmp` is that of `strncasecmp`, but a maximum of 0 wraps around and compares the
-- whole strings, where `strncasecmp` compares nothing.
pub xstrncasecmp-strncasecmp :
    (n : ℕ) (s t : Bytes)
    → n < 18446744073709551616
    → length s < 18446744073709551615
    → IsAscii s
    → IsAscii t
    → sign (xstrncasecmp s t n) ≡ (if n == 0 then strcasecmp s t else strncasecmp n s t)
xstrncasecmp-strncasecmp (suc n) s t l m h k = ground (arith, up_to n s t l h k)
xstrncasecmp-strncasecmp zero s t l m h k = unlimited s t m h k
