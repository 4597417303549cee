-- ===== src/Vercomp/Versions.antt =====
-- What `vercmp` of src/pextlib1.0/vercomp.c returns for whole version strings.
use mac_ports_fork.CString.{Bytes}
use mac_ports_fork.Filemap.FilePath.{same_bytes, same_bytes_iff}
use mac_ports_fork.Prelude.{
  ℕ, zero, suc, ◌+◌, ◌≤◌, List, [], ◌∷◌, Option, none, some, Bool, true, false, ◌≡◌, refl, sym, ap,
  ◌∙◌, arith, length, Bool-cases, inl, inr, ◌⊎◌, ◌&&◌, not, All, Ordering, length-append, subst,
}
use mac_ports_fork.Prelude.Int.{ℤ, pos}
use mac_ports_fork.Vercomp.{
  isdigit, isalpha, current, skip_others, segment, skip_zeros, first_difference, compare_digits, on,
  round_from, compare_loop, vercmp,
}
use mac_ports_fork.Vercomp.Digits.{verdict, stripped_eq}
use mac_ports_fork.Vercomp.Dotted.{
  IsPart, dots, dotted, compare_versions, loop_dotted, loop_turn, turn, Agrees,
}

first_difference_self : (s : Bytes) → first_difference s s ≡ none
unfolding first_difference
first_difference_self [] = refl
first_difference_self (c ∷ s) = ground (arith, first_difference_self s)

compare_digits_self : (s : Bytes) → compare_digits s s ≡ none
unfolding compare_digits
compare_digits_self s =
    stripped_eq (skip_zeros s) (skip_zeros s) refl ∙ first_difference_self (skip_zeros s)

not_both : (c : ℕ) → (isdigit c && isalpha c) ≡ false
unfolding isdigit isalpha
not_both c = ground arith

not_both' : (c : ℕ) → (isalpha c && isdigit c) ≡ false
unfolding isdigit isalpha
not_both' c = ground arith

not_self : (b : Bool) → (not b && b) ≡ false
not_self true = refl
not_self false = refl

-- A round on two equal strings leaves two equal strings.
round_self : (x : Bytes) → (r : Bytes) × (round_from x x ≡ on r r)
unfolding round_from
round_self x = elim (Bool-cases (isalpha (current x))) [
  | inl y ↦ (
    (segment isalpha x).1,
    rw
        (
          not_self (isdigit (current x)),
          not_both (current x),
          not_both' (current x),
          y,
          first_difference_self (segment isalpha x).0,
        )
        refl,
  )
  | inr n ↦ (
    (segment isdigit x).1,
    rw
        (
          not_self (isdigit (current x)),
          not_both (current x),
          not_both' (current x),
          n,
          compare_digits_self (segment isdigit x).0,
        )
        refl,
  )
]

turn_on : (f : ℕ) (a b : Bytes) → turn f (on a b) ≡ compare_loop f a b
unfolding turn
turn_on f a b = refl

loop_nil : (f : ℕ) → compare_loop (suc f) [] [] ≡ some (pos 0)
unfolding compare_loop
loop_nil f = refl

-- Without the shortcut for equal strings the loop would find them equal too.
loop_self :
    (f : ℕ) (a : Bytes) {z : ℤ} → compare_loop f a a ≡ some z → verdict (some z) ≡ Ordering.eq
loop_self zero a h = unfold compare_loop in cc (h)
loop_self (suc f) [] h = ap verdict (sym h ∙ loop_nil f)
loop_self (suc f) (c ∷ a) {z} h =
    let (r, e) = round_self (skip_others (c ∷ a)) in
    loop_self f r (sym (turn_on f r r) ∙ ap (turn f) (sym e) ∙ sym (loop_turn f c c a a) ∙ h)

Agrees-some :
    (o : Option ℤ) (x : Ordering) → Agrees o x → (z : ℤ) × (o ≡ some z) × (verdict (some z) ≡ x)
Agrees-some none x h = elim h [ ]
Agrees-some (some z) x h = (z, refl, h)

length-dots : (ps : List Bytes) → length ps ≤ length (dots ps)
length-dots [] = omega arith
length-dots (p ∷ ps) = omega (arith, length-append p (dots ps), length-dots ps)

-- On dotted versions, each part a number with at least one digit, `vercmp` is the comparison of the
-- lists of numbers: its sign is that of the first parts that differ as numbers, and where one version
-- begins the other, the shorter one is the smaller. So leading zeros do not count.
pub vercmp_versions :
    (p q : Bytes) (ps qs : List Bytes)
    → All IsPart (p ∷ ps)
    → All IsPart (q ∷ qs)
    → (z : ℤ) × (vercmp (dotted (p ∷ ps)) (dotted (q ∷ qs)) ≡ some z)
      × (verdict (some z) ≡ compare_versions (p ∷ ps) (q ∷ qs))
vercmp_versions p q ps qs h k = from_loop (Bool-cases (same_bytes a b))
  where
    a : Bytes
    a = dotted (p ∷ ps)

    b : Bytes
    b = dotted (q ∷ qs)

    fuel_eq : length a + 1 ≡ suc (length a)
    fuel_eq = omega arith

    agrees : Agrees (compare_loop (length a + 1) a b) (compare_versions (p ∷ ps) (q ∷ qs))
    agrees =
        subst (λ n. Agrees (compare_loop n a b) (compare_versions (p ∷ ps) (q ∷ qs))) (sym fuel_eq)
          (loop_dotted (length a) p q ps qs
            (omega (arith, length-append p (dots ps), length-dots ps, h.0.1)) h k)

    ran :
        (z : ℤ) × (compare_loop (length a + 1) a b ≡ some z)
        × (verdict (some z) ≡ compare_versions (p ∷ ps) (q ∷ qs))
    ran = Agrees-some _ _ agrees

    from_loop :
        ((same_bytes a b) ≡ true) ⊎ ((same_bytes a b) ≡ false)
        → (z : ℤ) × (vercmp a b ≡ some z) × (verdict (some z) ≡ compare_versions (p ∷ ps) (q ∷ qs))
    from_loop (inl y) =
        let same = (same_bytes_iff a b).0 y in
        (
          pos 0,
          unfold vercmp in rw y refl,
          sym (loop_self (length a + 1) a (ap (compare_loop (length a + 1) a) same ∙ ran.1))
              ∙ ran.2,
        )
    from_loop (inr n) = (ran.0, unfold vercmp in rw n ran.1, ran.2)
