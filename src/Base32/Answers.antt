-- ===== src/Base32/Answers.antt =====
-- What the decoder of src/pextlib1.0/base32cmd.c has read when it answers.
use mac_ports_fork.Base32.{
  answered, Reading, seen, stopped, with_value, read_eight, five_bytes, behind, then_groups, decode,
  unused, trim, invalid_padding, not_eights, decode_cmd, bad_char, from_char,
}
use mac_ports_fork.Base32.Digits.{filled}
use mac_ports_fork.CString.{Bytes}
use mac_ports_fork.Prelude.{
  ℕ, zero, suc, ◌+◌, ◌%◌, ◌<◌, ◌≤◌, ◌&&◌, leb, ◌≡◌, ◌≢◌, refl, sym, ap, ◌∙◌, inl, inr, [], ◌∷◌,
  ◌++◌, none, some, Bool, true, false, not, ◌==◌, if◌then◌else◌, arith, All, length, Bool-cases,
  Option-cases, append-nil, append_assoc, All-append, ==_iff,
}

-- A digit of base 32: '0' to '9', 'A' to 'V' or 'a' to 'v'.
pub data IsDigit32 (c : ℕ) : Type 0 where
  decimal : b'0' ≤ c → c ≤ b'9' → IsDigit32 c
  upper : b'A' ≤ c → c ≤ b'V' → IsDigit32 c
  lower : b'a' ≤ c → c ≤ b'v' → IsDigit32 c

-- A test between two bounds.
between : (low c high : ℕ) → (leb low c && leb c high) ≡ true → (low ≤ c) × (c ≤ high)
between low c high e = ground arith

good-IsDigit32 : (c : ℕ) → bad_char c ≡ false → IsDigit32 c
unfolding bad_char from_char
good-IsDigit32 c good = elim (Bool-cases (leb b'0' c && leb c b'9')) [
  | inl d ↦ let (low, high) = between b'0' c b'9' d in decimal low high
  | inr nd ↦ elim (Bool-cases (leb b'A' c && leb c b'V')) [
    | inl u ↦ let (low, high) = between b'A' c b'V' u in upper low high
    | inr nu ↦ elim (Bool-cases (leb b'a' c && leb c b'v')) [
      | inl l ↦ let (low, high) = between b'a' c b'v' l in lower low high
      | inr nl ↦ absurd (ground arith)
    ]
  ]
]

-- Behind `pad` characters '=', only more of them; before the first, digits.
abbrev pub Padded : ℕ → Bytes → ℕ → Type 0
Padded pad s after =
    (digits : Bytes) × (n : ℕ) × (s ≡ digits ++ filled n b'=')
    × All IsDigit32 digits
    × (after ≡ pad + n)
    × (0 < pad → digits ≡ [])

-- A reading that has not stopped; one that has stopped has an error.
abbrev Holds : (ℕ → Type 0) → Reading → Type 0
Holds P (seen xs pad) = P pad
Holds P (stopped e) = (text : Bytes) → e ≢ answered text

with_value-Holds : (P : ℕ → Type 0) (x : ℕ) (r : Reading) → Holds P r → Holds P (with_value x r)
with_value-Holds P x (seen xs pad) h = h
with_value-Holds P x (stopped e) h = h

Holds-map : (P Q : ℕ → Type 0) (r : Reading) → ((n : ℕ) → P n → Q n) → Holds P r → Holds Q r
Holds-map P Q (seen xs pad) f h = f pad h
Holds-map P Q (stopped e) f h = h

Padded-more : (pad after : ℕ) (s : Bytes) → Padded (suc pad) s after → Padded pad (b'=' ∷ s) after
Padded-more pad after s (digits, n, e, d, a, none_left) =
    let no_digits : digits ≡ [] = none_left (omega arith) in
    (
      [],
      suc n,
      ap (◌∷◌ b'=') (e ∙ ap (λ ds. ds ++ filled n b'=') no_digits),
      tt,
      omega arith,
      λ h. refl,
    )

Padded-digit :
    (c pad after : ℕ) (s : Bytes)
    → IsDigit32 c
    → pad ≡ 0
    → Padded pad s after
    → Padded pad (c ∷ s) after
Padded-digit c pad after s h z (digits, n, e, d, a, none_left) =
    (c ∷ digits, n, ap (◌∷◌ c) e, (h, d), a, λ k. absurd (omega arith))

if-Holds :
    (P : ℕ → Type 0) (b : Bool) (x y : Reading)
    → (b ≡ true → Holds P x)
    → (b ≡ false → Holds P y)
    → Holds P (if b then x else y)
if-Holds P true x y h k = h refl
if-Holds P false x y h k = k refl

read_eight-Padded : (j pad : ℕ) (s : Bytes) → Holds (Padded pad s) (read_eight j pad s)
unfolding read_eight
read_eight-Padded j pad [] = ([], 0, refl, tt, omega arith, λ h. refl)
read_eight-Padded j pad (a ∷ s) =
    let P = Padded pad (a ∷ s) in
    let padded = read_eight (suc j) (suc pad) s in
    let value = read_eight (suc j) pad s in
    if-Holds P (a == b'=') _ _
      (λ e. with_value-Holds P 0 padded (
        Holds-map (Padded (suc pad) s) P padded
          (λ n h. rw ((==_iff a b'=').0 e) (Padded-more pad n s h))
          (read_eight-Padded (suc j) (suc pad) s)))
      (λ ne.
        if-Holds P (not (pad == 0)) _ _ (λ z text e. cc)
          (λ z.
            if-Holds P (bad_char a) _ _ (λ b text e. cc)
              (λ good. with_value-Holds P (from_char a) value (
                Holds-map (Padded pad s) P value
                  (λ n h. Padded-digit a pad n s (good-IsDigit32 a good) (ground arith) h)
                  (read_eight-Padded (suc j) pad s)))))

filled-append : (m n c : ℕ) → filled m c ++ filled n c ≡ filled (m + n) c
filled-append zero n c = ap (λ k. filled k c) (omega arith)
filled-append (suc m) n c =
    let sum : suc (m + n) ≡ suc m + n = omega arith in
    ap (◌∷◌ c) (filled-append m n c) ∙ ap (λ k. filled k c) sum

-- The digits of the second part go on only if the first had no '='.
Padded-append :
    (pad p after : ℕ) (g s : Bytes) → Padded pad g p → Padded p s after → Padded pad (g ++ s) after
Padded-append pad zero after g s (ds, m, e, d, a, l) (ds', n, e', d', a', l') =
    let no_padding : m ≡ 0 = omega arith in
    let all_digits : g ≡ ds = e ∙ ap (λ k. ds ++ filled k b'=') no_padding ∙ append-nil ds in
    (
      ds ++ ds',
      n,
      ap (λ x. x ++ s) all_digits
          ∙ ap (λ x. ds ++ x) e'
          ∙ sym (append_assoc ds ds' (filled n b'=')),
      All-append IsDigit32 ds ds' d d',
      omega arith,
      λ h. absurd (omega arith),
    )
Padded-append pad (suc p) after g s (ds, m, e, d, a, l) (ds', n, e', d', a', l') =
    let no_digits : ds' ≡ [] = l' (omega arith) in
    (
      ds,
      m + n,
      ap (λ x. x ++ s) e
          ∙ append_assoc ds (filled m b'=') s
          ∙ ap (λ x. ds ++ (filled m b'=' ++ x)) (e' ∙ ap (λ x. x ++ filled n b'=') no_digits)
          ∙ ap (λ x. ds ++ x) (filled-append m n b'='),
      d,
      omega arith,
      l,
    )

behind-Holds : (P : ℕ → Type 0) (xs : Bytes) (r : Reading) → Holds P r → Holds P (behind xs r)
behind-Holds P xs (seen ys pad) h = h
behind-Holds P xs (stopped e) h = h

groups-Padded :
    (pad : ℕ) (g s : Bytes) (r : Reading) (k : ℕ → Reading)
    → Holds (Padded pad g) r
    → ((p : ℕ) → Holds (Padded p s) (k p))
    → Holds (Padded pad (g ++ s)) (then_groups r k)
groups-Padded pad g s (seen xs p) k h f =
    let P = Padded pad (g ++ s) in
    behind-Holds P (five_bytes xs) (k p)
      (Holds-map (Padded p s) P (k p) (λ n q. Padded-append pad p n g s h q) (f p))
groups-Padded pad g s (stopped e) k h f = h

decode-Padded : (pad : ℕ) (s : Bytes) → length s % 8 ≡ 0 → Holds (Padded pad s) (decode pad s)
unfolding decode
decode-Padded pad [] h = ([], 0, refl, tt, omega arith, λ k. refl)
decode-Padded pad (a ∷ []) h = absurd (omega arith)
decode-Padded pad (a ∷ b ∷ []) h = absurd (omega arith)
decode-Padded pad (a ∷ b ∷ c ∷ []) h = absurd (omega arith)
decode-Padded pad (a ∷ b ∷ c ∷ d ∷ []) h = absurd (omega arith)
decode-Padded pad (a ∷ b ∷ c ∷ d ∷ e ∷ []) h = absurd (omega arith)
decode-Padded pad (a ∷ b ∷ c ∷ d ∷ e ∷ f ∷ []) h = absurd (omega arith)
decode-Padded pad (a ∷ b ∷ c ∷ d ∷ e ∷ f ∷ g ∷ []) h = absurd (omega arith)
decode-Padded pad (a ∷ b ∷ c ∷ d ∷ e ∷ f ∷ g ∷ i ∷ s) h =
    let eight : Bytes = a ∷ b ∷ c ∷ d ∷ e ∷ f ∷ g ∷ i ∷ [] in
    groups-Padded pad eight s (read_eight 0 pad eight) (λ p. decode p s)
      (read_eight-Padded 0 pad eight) (λ p. decode-Padded p s (omega arith))

-- The numbers of '=' that an encoder leaves.
pub data IsPadding : ℕ → Type 0 where
  no_padding : IsPadding 0
  one_padding : IsPadding 1
  three_padding : IsPadding 3
  four_padding : IsPadding 4
  six_padding : IsPadding 6

unused-IsPadding : (n k : ℕ) → unused n ≡ some k → IsPadding n
unfolding unused
unused-IsPadding zero k u = no_padding
unused-IsPadding (suc zero) k u = one_padding
unused-IsPadding (suc (suc zero)) k u = absurd (ground arith)
unused-IsPadding (suc (suc (suc zero))) k u = three_padding
unused-IsPadding (suc (suc (suc (suc zero)))) k u = four_padding
unused-IsPadding (suc (suc (suc (suc (suc zero))))) k u = absurd (ground arith)
unused-IsPadding (suc (suc (suc (suc (suc (suc zero)))))) k u = six_padding
unused-IsPadding (suc (suc (suc (suc (suc (suc (suc n))))))) k u = absurd (ground arith)

-- Digits of base 32, with '=' behind them.
abbrev pub IsPadded : Bytes → Type 0
IsPadded s =
    (digits : Bytes) × (n : ℕ) × (s ≡ digits ++ filled n b'=') × All IsDigit32 digits × IsPadding n

trim-IsPadded :
    (s text : Bytes) (r : Reading) → Holds (Padded 0 s) r → trim r ≡ answered text → IsPadded s
unfolding trim
trim-IsPadded s text (stopped e) h t = absurd (h text t)
trim-IsPadded s text (seen out pad) (digits, n, e, d, a, l) t = elim (Option-cases (unused pad)) [
  | inl bad ↦ absurd (refused (sym (trim_refuses bad) ∙ t))
  | inr (k, u) ↦
      let same : n ≡ pad = omega arith in
      (digits, n, e, d, unused-IsPadding n k (ap unused same ∙ u))
]
  where
    trim_refuses : unused pad ≡ none → trim (seen out pad) ≡ invalid_padding pad
    trim_refuses bad = rw (trim, bad) refl

    refused : invalid_padding pad ≢ answered text
    refused q = cc

-- Whenever the decoder answers, its input is digits of base 32, each one of '0' to '9', 'A' to 'V'
-- and 'a' to 'v', and behind them '=' only, 0, 1, 3, 4 or 6 of them, as an encoder leaves. So it refuses any other character, and any character behind
-- the padding.
pub decode_cmd-IsPadded :
    (decoder buf text : Bytes) → decode_cmd (decoder ∷ buf ∷ []) ≡ answered text → IsPadded buf
unfolding decode_cmd
decode_cmd-IsPadded decoder buf text h = elim (Bool-cases (length buf % 8 == 0)) [
  | inl e ↦
      trim-IsPadded buf text (decode 0 buf) (decode-Padded 0 buf ((==_iff (length buf % 8) 0).0 e))
        (shown e)
  | inr ne ↦ absurd (refused ne)
]
  where
    shown : (length buf % 8 == 0) ≡ true → trim (decode 0 buf) ≡ answered text
    shown e = sym (unchanged e) ∙ h
      where
        unchanged :
            (length buf % 8 == 0) ≡ true → decode_cmd (decoder ∷ buf ∷ []) ≡ trim (decode 0 buf)
        unchanged e = rw e refl

    refused : ¬ ((length buf % 8 == 0) ≡ false)
    refused ne = other_length (sym (not_answered ne) ∙ h)
      where
        not_answered : (length buf % 8 == 0) ≡ false → decode_cmd (decoder ∷ buf ∷ []) ≡ not_eights
        not_answered ne = rw ne refl

        other_length : not_eights ≢ answered text
        other_length q = cc
