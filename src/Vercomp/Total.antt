-- ===== src/Vercomp/Total.antt =====
-- The loop of `vercmp` in src/pextlib1.0/vercomp.c ends.
use mac_ports_fork.CString.{Bytes}
use mac_ports_fork.Filemap.FilePath.{same_bytes}
use mac_ports_fork.Prelude.{
  ℕ, zero, suc, ◌+◌, ◌<◌, ◌≤◌, [], ◌∷◌, Option, none, some, Bool, true, false, ◌≡◌, refl, arith,
  length, if◌then◌else◌, Bool-cases, inl, inr, ◌&&◌, ◌||◌, not,
}
use mac_ports_fork.Prelude.Int.{ℤ, pos}
use mac_ports_fork.Vercomp.{
  isdigit, isalpha, isalnum, current, skip_others, segment, Round, decided, on, round_end,
  round_from, at_end, compare_loop, vercmp,
}

pub segment-rest_le : (kind : ℕ → Bool) (s : Bytes) → length (segment kind s).1 ≤ length s
unfolding segment
segment-rest_le kind [] = omega arith
segment-rest_le kind (c ∷ s) = elim (Bool-cases (kind c)) [
  | inl e ↦ rw e (omega (arith, segment-rest_le kind s))
  | inr ne ↦ rw ne (omega arith)
]

pub segment-rest_lt :
    (kind : ℕ → Bool) (c : ℕ) (s : Bytes)
    → kind c ≡ true
    → length (segment kind (c ∷ s)).1 < length (c ∷ s)
unfolding segment
segment-rest_lt kind c s e = rw e (omega (arith, segment-rest_le kind s))

-- The string is at its end, or at a byte that the skipping stops at.
abbrev pub StartsAlnum : Bytes → Type 0
StartsAlnum [] = Unit
StartsAlnum (c ∷ s) = isalnum c ≡ true

pub skip_others-StartsAlnum : (s : Bytes) → StartsAlnum (skip_others s)
unfolding skip_others
skip_others-StartsAlnum [] = tt
skip_others-StartsAlnum (c ∷ s) = elim (Bool-cases (isalnum c)) [
  | inl e ↦ rw e e
  | inr ne ↦ rw ne (skip_others-StartsAlnum s)
]

pub length-skip_others : (s : Bytes) → length (skip_others s) ≤ length s
unfolding skip_others
length-skip_others [] = omega arith
length-skip_others (c ∷ s) = elim (Bool-cases (isalnum c)) [
  | inl e ↦ rw e (omega arith)
  | inr ne ↦ rw ne (omega (arith, length-skip_others s))
]

-- A round that goes on leaves less of the first string than `n`.
abbrev Shortens : ℕ → Round → Type 0
Shortens n (decided z) = Unit
Shortens n (on a b) = length a < n

round_end-Shortens :
    (n : ℕ) (o : Option ℤ) (a b : Bytes) → length a < n → Shortens n (round_end o a b)
round_end-Shortens n none a b h = h
round_end-Shortens n (some z) a b h = tt

if-Shortens :
    (n : ℕ) (t : Bool) (x y : Round)
    → (t ≡ true → Shortens n x)
    → (t ≡ false → Shortens n y)
    → Shortens n (if t then x else y)
if-Shortens n true x y h k = h refl
if-Shortens n false x y h k = k refl

-- A byte that is alphanumeric and no letter is a digit.
alnum_digit : (c : ℕ) → isalnum c ≡ true → isalpha c ≡ false → isdigit c ≡ true
alnum_digit c h k = unfold isalnum in (ground (arith, k))

digits_rest :
    (x : Bytes) (n : ℕ)
    → length x ≤ n
    → 0 < n
    → StartsAlnum x
    → isalpha (current x) ≡ false
    → length (segment isdigit x).1 < n
digits_rest [] n l p h k = unfold segment in p
digits_rest (c ∷ x) n l p h k = omega (arith, segment-rest_lt isdigit c x (alnum_digit c h k))

letters_rest :
    (x : Bytes) (n : ℕ)
    → length x ≤ n
    → 0 < n
    → isalpha (current x) ≡ true
    → length (segment isalpha x).1 < n
letters_rest [] n l p k = unfold segment in p
letters_rest (c ∷ x) n l p k = omega (arith, segment-rest_lt isalpha c x k)

round_from-Shortens :
    (x y : Bytes) (n : ℕ) → length x ≤ n → 0 < n → StartsAlnum x → Shortens n (round_from x y)
unfolding round_from
round_from-Shortens x y n l p h =
    if-Shortens n (not (isdigit (current y)) && isdigit (current x)) _ _ (λ _. tt)
      λ _.
        if-Shortens n
          ((isdigit (current x) && isalpha (current y))
            || (isalpha (current x) && isdigit (current y)))
          _ _ (λ _. tt)
          λ _.
            if-Shortens n (isalpha (current x)) _ _
              (λ k. round_end-Shortens n _ _ _ (letters_rest x n l p k))
              (λ k. round_end-Shortens n _ _ _ (digits_rest x n l p h k))

compare_loop-total : (f : ℕ) (a b : Bytes) → length a < f → (z : ℤ) × (compare_loop f a b ≡ some z)
unfolding compare_loop
compare_loop-total zero a b h = absurd (omega arith)
compare_loop-total (suc f) [] b h = (at_end [] b, refl)
compare_loop-total (suc f) (c ∷ a) [] h = (pos 1, refl)
compare_loop-total (suc f) (c ∷ a) (d ∷ b) h =
    after (round_from (skip_others (c ∷ a)) (skip_others (d ∷ b)))
      (round_from-Shortens (skip_others (c ∷ a)) (skip_others (d ∷ b)) (length (c ∷ a))
        (length-skip_others (c ∷ a)) (omega arith) (skip_others-StartsAlnum (c ∷ a)))
      (compare_loop-total f)
  where
    after :
        (r : Round)
        → Shortens (length (c ∷ a)) r
        → ((a' b' : Bytes) → length a' < f → (z : ℤ) × (compare_loop f a' b' ≡ some z))
        → (z : ℤ) × ((elim r [ decided z ↦ some z | on a' b' ↦ compare_loop f a' b' ]) ≡ some z)
    after (decided z) s k = (z, refl)
    after (on a' b') s k = k a' b' (omega arith)

-- `vercmp` returns for any two strings: each round of its loop takes at least one byte off the
-- first, so the fuel of the model is never used up.
pub vercmp_total : (a b : Bytes) → (z : ℤ) × (vercmp a b ≡ some z)
vercmp_total a b =
    let (z, e) = compare_loop-total (length a + 1) a b (omega arith) in
    elim (Bool-cases (same_bytes a b)) [
      | inl y ↦ (pos 0, unfold vercmp in rw y refl)
      | inr n ↦ (z, unfold vercmp in rw n e)
    ]
