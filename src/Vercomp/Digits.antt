-- ===== src/Vercomp/Digits.antt =====
-- Segments of digits in src/pextlib1.0/vercomp.c are compared as numbers.
use mac_ports_fork.CString.{Bytes}
use mac_ports_fork.Prelude.{
  ℕ, zero, suc, ◌+◌, ◌-◌, ◌*◌, ◌<◌, ◌≤◌, [], ◌∷◌, Option, none, some, true, false, ◌≡◌, refl, ◌∙◌,
  arith, All, length, compare, Ordering, leb, ◌==◌, Bool-cases, inl, inr, ◌⊎◌, sym, ap,
}
use mac_ports_fork.Prelude.Int.{ℤ, pos, negsuc, sub_ℕ}
use mac_ports_fork.Vercomp.{skip_zeros, first_difference, compare_stripped, compare_digits}

abbrev pub AreDigits : Bytes → Type 0
AreDigits s = All (λ c. (b'0' ≤ c) × (c ≤ b'9')) s

-- The number that digits write, behind those that make up `n`.
abbrev pub value_from : ℕ → Bytes → ℕ
value_from n [] = n
value_from n (c ∷ s) = value_from (n * 10 + (c - b'0')) s

abbrev pub decimal : Bytes → ℕ
decimal s = value_from 0 s

-- The sign of a result; no result means that the segments are alike.
abbrev pub verdict : Option ℤ → Ordering
verdict none = Ordering.eq
verdict (some (pos zero)) = Ordering.eq
verdict (some (pos (suc n))) = Ordering.gt
verdict (some (negsuc n)) = Ordering.lt

pub lt_or_gt : (c d : ℕ) → (c == d) ≡ false → (c < d) ⊎ (d < c)
lt_or_gt c d h = ground arith

pub compare-cases : (a b : ℕ) → (a < b) ⊎ ((a ≡ b) ⊎ (b < a))
compare-cases a b = ground arith

value_from-lt :
    (s t : Bytes) (a b : ℕ)
    → AreDigits s
    → length s ≤ length t
    → a < b
    → value_from a s < value_from b t
value_from-lt [] [] a b h l lt = lt
value_from-lt (c ∷ s) [] a b h l lt = absurd (omega arith)
value_from-lt [] (d ∷ t) a b h l lt =
    value_from-lt [] t a (b * 10 + (d - b'0')) tt (omega arith) (omega arith)
value_from-lt (c ∷ s) (d ∷ t) a b h l lt =
    value_from-lt s t (a * 10 + (c - b'0')) (b * 10 + (d - b'0')) h.1 (omega arith)
      (omega (arith, h.0.0, h.0.1))

value-skip_zeros : (s : Bytes) → decimal (skip_zeros s) ≡ decimal s
unfolding skip_zeros
value-skip_zeros [] = refl
value-skip_zeros (c ∷ s) = elim (Bool-cases (c == b'0')) [
  | inl e ↦
      let zero_digit : 0 ≡ 0 + (c - b'0') = ground arith in
      rw e (value-skip_zeros s ∙ ap (λ n. value_from n s) zero_digit)
  | inr ne ↦ rw ne refl
]

compare-eq : (a : ℕ) → compare a a ≡ Ordering.eq
compare-eq a = ground arith

compare-lt : (a b : ℕ) → a < b → compare a b ≡ Ordering.lt
compare-lt a b h = ground arith

compare-gt : (a b : ℕ) → b < a → compare a b ≡ Ordering.gt
compare-gt a b h = ground arith

pub verdict-lt : (c d : ℕ) → c < d → verdict (some (sub_ℕ c d)) ≡ Ordering.lt
verdict-lt c d h = ground arith

pub verdict-gt : (c d : ℕ) → d < c → verdict (some (sub_ℕ c d)) ≡ Ordering.gt
verdict-gt c d h =
    let e : leb d c ≡ true = ground arith in
    let n : c - d ≡ suc (c - d - 1) = omega arith in rw (e, n) refl

first_difference-compare :
    (s t : Bytes) (a : ℕ)
    → AreDigits s
    → AreDigits t
    → length s ≡ length t
    → verdict (first_difference s t) ≡ compare (value_from a s) (value_from a t)
unfolding first_difference
first_difference-compare [] [] a h k l = sym (compare-eq a)
first_difference-compare [] (d ∷ t) a h k l = absurd (omega arith)
first_difference-compare (c ∷ s) [] a h k l = absurd (omega arith)
first_difference-compare (c ∷ s) (d ∷ t) a h k l = elim (Bool-cases (c == d)) [
  | inl e ↦
      let same : c ≡ d = ground arith in
      rw e (
        first_difference-compare s t (a * 10 + (c - b'0')) h.1 k.1 (omega arith)
        ∙ ap
            (λ x. compare (value_from (a * 10 + (c - b'0')) s) (value_from (a * 10 + (x - b'0')) t))
            same)
  | inr ne ↦ rw ne (elim (lt_or_gt c d ne) [
    | inl lt ↦
        verdict-lt c d lt
        ∙ sym
            (compare-lt _ _ (value_from-lt s t _ _ h.1 (omega arith) (omega (arith, h.0.0, k.0.0))))
    | inr gt ↦
        verdict-gt c d gt
        ∙ sym
            (compare-gt _ _ (value_from-lt t s _ _ k.1 (omega arith) (omega (arith, h.0.0, k.0.0))))
  ])
]

skip_zeros-AreDigits : (s : Bytes) → AreDigits s → AreDigits (skip_zeros s)
unfolding skip_zeros
skip_zeros-AreDigits [] h = tt
skip_zeros-AreDigits (c ∷ s) h = elim (Bool-cases (c == b'0')) [
  | inl e ↦ rw e (skip_zeros-AreDigits s h.1)
  | inr ne ↦ rw ne h
]

-- A number without leading zeros is greater than every shorter one.
skip_zeros-lt :
    (s t : Bytes)
    → AreDigits s
    → AreDigits t
    → length s < length (skip_zeros t)
    → decimal s < decimal (skip_zeros t)
unfolding skip_zeros
skip_zeros-lt s [] h k l = absurd (omega arith)
skip_zeros-lt s (d ∷ t) h k l = elim (Bool-cases (d == b'0')) [
  | inl e ↦ rw e (skip_zeros-lt s t h k.1 (rw e at l))
  | inr ne ↦
      let l' : length s < length (d ∷ t) = rw ne at l in
      let d_pos : 0 < 0 + (d - b'0') = ground (arith, k.0.0) in
      rw ne (value_from-lt s t 0 (0 + (d - b'0')) h (omega arith) d_pos)
]

pub stripped_lt : (a b : Bytes) → length a < length b → compare_stripped a b ≡ some (negsuc 0)
unfolding compare_stripped
stripped_lt a b h = ground arith

pub stripped_gt : (a b : Bytes) → length b < length a → compare_stripped a b ≡ some (pos 1)
unfolding compare_stripped
stripped_gt a b h = ground arith

pub stripped_eq : (a b : Bytes) → length a ≡ length b → compare_stripped a b ≡ first_difference a b
unfolding compare_stripped
stripped_eq a b h = ground arith

compare_stripped-decimal :
    (s t : Bytes)
    → AreDigits s
    → AreDigits t
    → verdict (compare_stripped (skip_zeros s) (skip_zeros t))
      ≡ compare (decimal (skip_zeros s)) (decimal (skip_zeros t))
compare_stripped-decimal s t h k =
    elim (compare-cases (length (skip_zeros s)) (length (skip_zeros t))) [
      | inl lt ↦
          ap verdict (stripped_lt _ _ lt)
          ∙ sym (compare-lt _ _ (skip_zeros-lt (skip_zeros s) t (skip_zeros-AreDigits s h) k lt))
      | inr (inl same) ↦
          ap verdict (stripped_eq _ _ same)
          ∙ first_difference-compare (skip_zeros s) (skip_zeros t) 0 (skip_zeros-AreDigits s h)
              (skip_zeros-AreDigits t k) same
      | inr (inr gt) ↦
          ap verdict (stripped_gt _ _ gt)
          ∙ sym (compare-gt _ _ (skip_zeros-lt (skip_zeros t) s (skip_zeros-AreDigits t k) h gt))
    ]

-- Two segments of digits, of any lengths and with any leading zeros, compare as the numbers that
-- they write: there is no bound on the numbers, and so no overflow.
pub compare_digits-decimal :
    (s t : Bytes)
    → AreDigits s
    → AreDigits t
    → verdict (compare_digits s t) ≡ compare (decimal s) (decimal t)
compare_digits-decimal s t h k =
    unfold compare_digits in
    compare_stripped-decimal s t h k
    ∙ ap (λ n. compare n (decimal (skip_zeros t))) (value-skip_zeros s)
    ∙ ap (compare (decimal s)) (value-skip_zeros t)
