-- ===== src/Vercomp/Dotted.antt =====
-- `vercmp` of src/pextlib1.0/vercomp.c on dotted numeric versions such as 10.4.11.
use mac_ports_fork.CString.{Bytes}
use mac_ports_fork.Prelude.{
  ℕ, zero, suc, ◌<◌, ◌≤◌, List, [], ◌∷◌, ◌++◌, Option, none, some, true, false, ◌≡◌, ◌≢◌, refl, sym,
  ap, ◌∙◌, arith, length, Bool-cases, inl, inr, ◌⊎◌, ◌==◌, All, compare, Ordering,
}
use mac_ports_fork.Prelude.Int.{ℤ, sub_ℕ}
use mac_ports_fork.Vercomp.{
  isdigit, isalpha, isalnum, skip_others, segment, skip_zeros, first_difference, compare_stripped,
  compare_digits, Round, decided, on, round_end, round_from, compare_loop,
}
use mac_ports_fork.Vercomp.Digits.{
  AreDigits, decimal, verdict, compare_digits-decimal, lt_or_gt, compare-cases, verdict-lt,
  verdict-gt, stripped_lt, stripped_eq, stripped_gt,
}

-- The parts of a version: each a number with at least one digit.
abbrev pub IsPart : Bytes → Type 0
IsPart s = AreDigits s × (0 < length s)

-- What follows the first part.
abbrev pub dots : List Bytes → Bytes
dots [] = []
dots (p ∷ ps) = b'.' ∷ (p ++ dots ps)

abbrev pub dotted : List Bytes → Bytes
dotted [] = []
dotted (p ∷ ps) = p ++ dots ps

-- Versions as lists of numbers: the first difference decides, and a version is smaller than one that
-- goes on behind it.
abbrev pub compare_versions : List Bytes → List Bytes → Ordering
compare_versions [] [] = Ordering.eq
compare_versions [] (q ∷ qs) = Ordering.lt
compare_versions (p ∷ ps) [] = Ordering.gt
compare_versions (p ∷ ps) (q ∷ qs) = elim (compare (decimal p) (decimal q)) [
  | Ordering.lt ↦ Ordering.lt
  | Ordering.eq ↦ compare_versions ps qs
  | Ordering.gt ↦ Ordering.gt
]

digit_kinds :
    (c : ℕ)
    → (b'0' ≤ c) × (c ≤ b'9')
    → (isdigit c ≡ true) × (isalpha c ≡ false) × (isalnum c ≡ true)
unfolding isdigit isalpha isalnum
digit_kinds c h = ground (arith, h.0, h.1)

segment-dots : (ps : List Bytes) → segment isdigit (dots ps) ≡ ([], dots ps)
unfolding segment isdigit
segment-dots [] = refl
segment-dots (p ∷ ps) = refl

segment-digits :
    (p : Bytes) (ps : List Bytes) → AreDigits p → segment isdigit (p ++ dots ps) ≡ (p, dots ps)
unfolding segment
segment-digits [] ps h = segment-dots ps
segment-digits (c ∷ p) ps h =
    rw ((digit_kinds c h.0).0) (ap (λ r. (c ∷ r.0, r.1)) (segment-digits p ps h.1))

skip_part : (p : Bytes) (ps : List Bytes) → IsPart p → skip_others (p ++ dots ps) ≡ p ++ dots ps
unfolding skip_others
skip_part [] ps h = absurd (omega (arith, h.1))
skip_part (c ∷ p) ps h = rw ((digit_kinds c h.0.0).2) refl

skip_dot : (s : Bytes) → skip_others (b'.' ∷ s) ≡ skip_others s
unfolding skip_others
skip_dot s = refl

-- A round on two versions compares their first parts.
round_parts :
    (p q : Bytes) (ps qs : List Bytes)
    → IsPart p
    → IsPart q
    → round_from (p ++ dots ps) (q ++ dots qs) ≡ round_end (compare_digits p q) (dots ps) (dots qs)
unfolding round_from
round_parts [] q ps qs h k = absurd (omega (arith, h.1))
round_parts (c ∷ p) [] ps qs h k = absurd (omega (arith, k.1))
round_parts (c ∷ p) (d ∷ q) ps qs h k =
    let x = digit_kinds c h.0.0 in
    let y = digit_kinds d k.0.0 in
    rw (x.0, x.1, y.0, y.1, segment-digits (c ∷ p) ps h.0, segment-digits (d ∷ q) qs k.0) refl

-- The result of a loop agrees with the comparison of versions.
abbrev pub Agrees : Option ℤ → Ordering → Type 0
Agrees none o = ⊥
Agrees (some z) o = verdict (some z) ≡ o

Agrees-round :
    (o : Option ℤ) (after : Option ℤ) (first rest : Ordering)
    → verdict o ≡ first
    → Agrees after rest
    → ((z : ℤ) → o ≡ some z → verdict (some z) ≢ Ordering.eq)
    → Agrees
        (elim o [ none ↦ after | some z ↦ some z ])
        (elim first [ Ordering.lt ↦ Ordering.lt | Ordering.eq ↦ rest | Ordering.gt ↦ Ordering.gt ])
Agrees-round none after first rest e a ne = rw (← e) a
Agrees-round (some z) after Ordering.lt rest e a ne = e
Agrees-round (some z) after Ordering.eq rest e a ne = absurd (ne z refl e)
Agrees-round (some z) after Ordering.gt rest e a ne = e

sub_ℕ-ne : (c d : ℕ) → (c == d) ≡ false → verdict (some (sub_ℕ c d)) ≢ Ordering.eq
sub_ℕ-ne c d h e = absurd (by_order (lt_or_gt c d h))
  where
    by_order : (c < d) ⊎ (d < c) → ⊥
    by_order (inl lt) = cc (verdict-lt c d lt)
    by_order (inr gt) = cc (verdict-gt c d gt)

-- A difference that is found is one.
first_difference-ne :
    (s t : Bytes) (z : ℤ) → first_difference s t ≡ some z → verdict (some z) ≢ Ordering.eq
unfolding first_difference
first_difference-ne [] t z h = cc
first_difference-ne (c ∷ s) [] z h = cc
first_difference-ne (c ∷ s) (d ∷ t) z h = elim (Bool-cases (c == d)) [
  | inl e ↦ first_difference-ne s t z (rw e at h)
  | inr ne ↦
      let found : some (sub_ℕ c d) ≡ some z = rw ne at h in
      λ x. sub_ℕ-ne c d ne (ap verdict found ∙ x)
]

compare_stripped-ne :
    (a b : Bytes) (z : ℤ) → compare_stripped a b ≡ some z → verdict (some z) ≢ Ordering.eq
compare_stripped-ne a b z h = elim (compare-cases (length a) (length b)) [
  | inl lt ↦ λ x. cc (h, stripped_lt a b lt)
  | inr (inl same) ↦ first_difference-ne a b z (sym (stripped_eq a b same) ∙ h)
  | inr (inr gt) ↦ λ x. cc (h, stripped_gt a b gt)
]

compare_digits-ne :
    (s t : Bytes) (z : ℤ) → compare_digits s t ≡ some z → verdict (some z) ≢ Ordering.eq
compare_digits-ne s t z h =
    compare_stripped-ne (skip_zeros s) (skip_zeros t) z (unfold compare_digits in h)

-- One turn of the loop, from the strings behind the skipping.
unfoldable pub turn : ℕ → Round → Option ℤ
turn f r = elim r [ decided z ↦ some z | on a b ↦ compare_loop f a b ]

pub turn_end :
    (f : ℕ) (o : Option ℤ) (a b : Bytes)
    → turn f (round_end o a b) ≡ elim o [ none ↦ compare_loop f a b | some z ↦ some z ]
unfolding turn
turn_end f none a b = refl
turn_end f (some z) a b = refl

pub loop_turn :
    (f c d : ℕ) (a b : Bytes)
    → compare_loop (suc f) (c ∷ a) (d ∷ b)
      ≡ turn f (round_from (skip_others (c ∷ a)) (skip_others (d ∷ b)))
unfolding compare_loop turn
loop_turn f c d a b = refl

module _ (f : ℕ) (p q : Bytes) (ps qs : List Bytes) (hp : IsPart p) (hq : IsPart q)
    (after : Agrees (compare_loop f (dots ps) (dots qs)) (compare_versions ps qs)) where
  turn_parts :
      Agrees
        (turn f (round_from (p ++ dots ps) (q ++ dots qs)))
        (compare_versions (p ∷ ps) (q ∷ qs))
  turn_parts =
      rw (round_parts p q ps qs hp hq, turn_end f (compare_digits p q) (dots ps) (dots qs))
        (Agrees-round (compare_digits p q) (compare_loop f (dots ps) (dots qs))
          (compare (decimal p) (decimal q)) (compare_versions ps qs)
          (compare_digits-decimal p q hp.0 hq.0) after (compare_digits-ne p q))

loop_dots :
    (f : ℕ) (ps qs : List Bytes)
    → length ps < f
    → All IsPart ps
    → All IsPart qs
    → Agrees (compare_loop f (dots ps) (dots qs)) (compare_versions ps qs)
loop_dots zero ps qs l h k = absurd (omega arith)
loop_dots (suc f) [] [] l h k = unfold compare_loop in refl
loop_dots (suc f) [] (q ∷ qs) l h k = unfold compare_loop in refl
loop_dots (suc f) (p ∷ ps) [] l h k = unfold compare_loop in refl
loop_dots (suc f) (p ∷ ps) (q ∷ qs) l h k =
    rw
      (
        loop_turn f b'.' b'.' (p ++ dots ps) (q ++ dots qs),
        skip_dot (p ++ dots ps),
        skip_dot (q ++ dots qs),
        skip_part p ps h.0,
        skip_part q qs k.0,
      )
      (turn_parts f p q ps qs h.0 k.0 (loop_dots f ps qs (omega arith) h.1 k.1))

pub loop_dotted :
    (f : ℕ) (p q : Bytes) (ps qs : List Bytes)
    → length ps < f
    → All IsPart (p ∷ ps)
    → All IsPart (q ∷ qs)
    → Agrees
        (compare_loop (suc f) (dotted (p ∷ ps)) (dotted (q ∷ qs)))
        (compare_versions (p ∷ ps) (q ∷ qs))
loop_dotted f [] q ps qs l h k = absurd (omega (arith, h.0.1))
loop_dotted f (c ∷ p) [] ps qs l h k = absurd (omega (arith, k.0.1))
loop_dotted f (c ∷ p) (d ∷ q) ps qs l h k =
    rw
      (
        loop_turn f c d (p ++ dots ps) (q ++ dots qs),
        skip_part (c ∷ p) ps h.0,
        skip_part (d ∷ q) qs k.0,
      )
      (turn_parts f (c ∷ p) (d ∷ q) ps qs h.0 k.0 (loop_dots f ps qs l h.1 k.1))
