-- ===== src/Base32/RoundTrip.antt =====
-- The decoder of src/pextlib1.0/base32cmd.c reads what the encoder has written.
use mac_ports_fork.Base32.{
  answered, seen, read_eight, five_bytes, behind, decode, unused, trim, to_char, encode, encode_cmd,
  decode_cmd, all_hex, from_hex, to_hex,
}
use mac_ports_fork.Base32.Digits.{
  from_char-to_char, bad_char-to_char, to_char_not_padding, from_hex-All, length-from_hex, filled,
  to_hex-from_hex,
}
use mac_ports_fork.CString.{Bytes, lower}
use mac_ports_fork.Prelude.{
  ℕ, zero, suc, ◌+◌, ◌*◌, ◌/◌, ◌%◌, ◌<◌, ◌≡◌, refl, sym, ap, ◌∙◌, [], ◌∷◌, ◌++◌, map, some, true,
  arith, All, length, take, drop, length-append, append_assoc, append-nil,
}

read_padding : (n j pad : ℕ) → read_eight j pad (filled n b'=') ≡ seen (filled n 0) (pad + n)
unfolding read_eight
read_padding zero j pad = ap (seen []) (omega arith)
read_padding (suc n) j pad =
    rw (read_padding n (suc j) (suc pad)) (ap (seen (0 ∷ filled n 0)) (omega arith))

-- The characters of some values, filled up with '='.
read_values :
    (xs : Bytes) (n j : ℕ)
    → All (λ x. x < 32) xs
    → read_eight j 0 (map to_char xs ++ filled n b'=') ≡ seen (xs ++ filled n 0) n
unfolding read_eight
read_values [] n j h = read_padding n j 0 ∙ ap (seen (filled n 0)) (omega arith)
read_values (x ∷ xs) n j h =
    rw
      (
        to_char_not_padding x h.0,
        bad_char-to_char x h.0,
        from_char-to_char x h.0,
        read_values xs n (suc j) h.1,
      )
      refl

same_cons : {x y : ℕ} {xs ys : Bytes} → x ≡ y → xs ≡ ys → x ∷ xs ≡ y ∷ ys
same_cons p q = rw (p, q) refl

-- A byte from the values that hold its bits.
byte₀ : (a u : ℕ) → a < 256 → u < 4 → (a / 8 * 8 + (a * 4 + u) % 32 / 4) % 256 ≡ a
byte₀ a u h k = omega arith

byte₁ :
    (a b u : ℕ)
    → b < 256
    → u < 16
    → ((a * 4 + b / 64) % 32 * 64 + b / 2 % 32 * 2 + (b * 16 + u) % 32 / 16) % 256 ≡ b
byte₁ a b u h k = omega arith

byte₂ :
    (b c u : ℕ) → c < 256 → u < 2 → ((b * 16 + c / 16) % 32 * 16 + (c * 2 + u) % 32 / 2) % 256 ≡ c
byte₂ b c u h k = omega arith

byte₃ :
    (c d u : ℕ)
    → d < 256
    → u < 8
    → ((c * 2 + d / 128) % 32 * 128 + d / 4 % 32 * 4 + (d * 8 + u) % 32 / 8) % 256 ≡ d
byte₃ c d u h k = omega arith

byte₄ : (d e : ℕ) → e < 256 → ((d * 8 + e / 32) % 32 * 32 + e % 32) % 256 ≡ e
byte₄ d e h = omega arith

decode_eight :
    (c₀ c₁ c₂ c₃ c₄ c₅ c₆ c₇ : ℕ) (s xs : Bytes) (pad : ℕ)
    → read_eight 0 0 (c₀ ∷ c₁ ∷ c₂ ∷ c₃ ∷ c₄ ∷ c₅ ∷ c₆ ∷ c₇ ∷ []) ≡ seen xs pad
    → decode 0 (c₀ ∷ c₁ ∷ c₂ ∷ c₃ ∷ c₄ ∷ c₅ ∷ c₆ ∷ c₇ ∷ s) ≡ behind (five_bytes xs) (decode pad s)
unfolding decode
decode_eight c₀ c₁ c₂ c₃ c₄ c₅ c₆ c₇ s xs pad e = rw e refl

-- The characters are read as the bytes, with bytes behind them that the padding takes off.
abbrev IsReadAs : Bytes → Bytes → Type 0
IsReadAs chars bytes =
    (junk : Bytes) × (pad : ℕ) × (decode 0 chars ≡ seen (bytes ++ junk) pad)
    × (unused pad ≡ some (length junk))

IsReadAs-more :
    (chars rest front bytes : Bytes)
    → decode 0 chars ≡ behind front (decode 0 rest)
    → IsReadAs rest bytes
    → IsReadAs chars (front ++ bytes)
IsReadAs-more chars rest front bytes e (junk, pad, d, u) =
    (junk, pad, e ∙ rw d (ap (λ xs. seen xs pad) (sym (append_assoc front bytes junk))), u)

-- The last group, of which `n` bytes count.
last_group :
    (n : ℕ) (c₀ c₁ c₂ c₃ c₄ c₅ c₆ c₇ : ℕ) (xs bytes : Bytes) (pad : ℕ)
    → read_eight 0 0 (c₀ ∷ c₁ ∷ c₂ ∷ c₃ ∷ c₄ ∷ c₅ ∷ c₆ ∷ c₇ ∷ []) ≡ seen xs pad
    → five_bytes xs ≡ bytes ++ drop n (five_bytes xs)
    → unused pad ≡ some (length (drop n (five_bytes xs)))
    → IsReadAs (c₀ ∷ c₁ ∷ c₂ ∷ c₃ ∷ c₄ ∷ c₅ ∷ c₆ ∷ c₇ ∷ []) bytes
last_group n c₀ c₁ c₂ c₃ c₄ c₅ c₆ c₇ xs bytes pad e f u = (
  drop n (five_bytes xs),
  pad,
  decode_eight c₀ c₁ c₂ c₃ c₄ c₅ c₆ c₇ [] xs pad e
      ∙ (unfold decode in ap (λ ys. seen ys pad) (append-nil (five_bytes xs) ∙ f)),
  u,
)

decode-encode : (s : Bytes) → All (λ b. b < 256) s → IsReadAs (encode s) s
unfolding encode five_bytes unused
decode-encode [] h = ([], 0, (unfold decode in refl), refl)
decode-encode (a ∷ []) h =
    let xs : Bytes = (a / 8) ∷ (a * 4 % 32) ∷ [] in
    last_group 1 _ _ _ _ _ _ _ _ (xs ++ filled 6 0) (a ∷ []) 6 (read_values xs 6 0 (omega arith))
      (same_cons (omega arith) refl) refl
decode-encode (a ∷ b ∷ []) h =
    let xs : Bytes = (a / 8) ∷ ((a * 4 + b / 64) % 32) ∷ (b / 2 % 32) ∷ (b * 16 % 32) ∷ [] in
    last_group 2 _ _ _ _ _ _ _ _ (xs ++ filled 4 0) (a ∷ b ∷ []) 4
      (read_values xs 4 0 (omega arith)) (same_cons (omega arith) (same_cons (omega arith) refl))
      refl
decode-encode (a ∷ b ∷ c ∷ []) h =
    let xs : Bytes =
      (a / 8)
      ∷ ((a * 4 + b / 64) % 32)
      ∷ (b / 2 % 32)
      ∷ ((b * 16 + c / 16) % 32)
      ∷ (c * 2 % 32)
      ∷ [] in
    last_group 3 _ _ _ _ _ _ _ _ (xs ++ filled 3 0) (a ∷ b ∷ c ∷ []) 3
      (read_values xs 3 0 (omega arith))
      (same_cons (omega arith) (same_cons (omega arith) (same_cons (omega arith) refl))) refl
decode-encode (a ∷ b ∷ c ∷ d ∷ []) h =
    let xs : Bytes =
      (a / 8)
      ∷ ((a * 4 + b / 64) % 32)
      ∷ (b / 2 % 32)
      ∷ ((b * 16 + c / 16) % 32)
      ∷ ((c * 2 + d / 128) % 32)
      ∷ (d / 4 % 32)
      ∷ (d * 8 % 32)
      ∷ [] in
    last_group 4 _ _ _ _ _ _ _ _ (xs ++ filled 1 0) (a ∷ b ∷ c ∷ d ∷ []) 1
      (read_values xs 1 0 (omega arith))
      (same_cons (omega arith)
        (same_cons (omega arith) (same_cons (omega arith) (same_cons (omega arith) refl))))
      refl
decode-encode (a ∷ b ∷ c ∷ d ∷ e ∷ s) h =
    let xs : Bytes =
      (a / 8)
      ∷ ((a * 4 + b / 64) % 32)
      ∷ (b / 2 % 32)
      ∷ ((b * 16 + c / 16) % 32)
      ∷ ((c * 2 + d / 128) % 32)
      ∷ (d / 4 % 32)
      ∷ ((d * 8 + e / 32) % 32)
      ∷ (e % 32)
      ∷ [] in
    let (ha, (hb, (hc, (hd, (he, hs))))) = h in
    let five : five_bytes xs ≡ a ∷ b ∷ c ∷ d ∷ e ∷ [] =
      same_cons (byte₀ a (b / 64) ha (omega arith)) (
        same_cons (byte₁ a b (c / 16) hb (omega arith)) (
          same_cons (byte₂ b c (d / 128) hc (omega arith))
            (same_cons (byte₃ c d (e / 32) hd (omega arith)) (same_cons (byte₄ d e he) refl)))) in
    IsReadAs-more _ (encode s) (a ∷ b ∷ c ∷ d ∷ e ∷ []) s
      (decode_eight _ _ _ _ _ _ _ _ (encode s) xs 0 (read_values xs 0 0 (omega arith))
        ∙ ap (λ ys. behind ys (decode 0 (encode s))) five)
      (decode-encode s hs)

length-encode : (s : Bytes) → length (encode s) ≡ (length s + 4) / 5 * 8
unfolding encode
length-encode [] = omega arith
length-encode (a ∷ []) = omega arith
length-encode (a ∷ b ∷ []) = omega arith
length-encode (a ∷ b ∷ c ∷ []) = omega arith
length-encode (a ∷ b ∷ c ∷ d ∷ []) = omega arith
length-encode (a ∷ b ∷ c ∷ d ∷ e ∷ s) = omega (arith, length-encode s)

take_front : (xs ys : Bytes) (n : ℕ) → n ≡ length xs → take n (xs ++ ys) ≡ xs
take_front [] ys n e = rw e refl
take_front (x ∷ xs) ys zero e = absurd (omega arith)
take_front (x ∷ xs) ys (suc n) e = ap (◌∷◌ x) (take_front xs ys n (omega arith))

trimmed :
    (bytes junk : Bytes) (pad : ℕ)
    → unused pad ≡ some (length junk)
    → trim (seen (bytes ++ junk) pad) ≡ answered (to_hex bytes)
unfolding trim
trimmed bytes junk pad u =
    rw (trim, u)
      (ap (λ s. answered (to_hex s))
        (take_front bytes junk _ (omega (arith, length-append bytes junk))))

trim-decode :
    (chars bytes : Bytes) → IsReadAs chars bytes → trim (decode 0 chars) ≡ answered (to_hex bytes)
trim-decode chars bytes (junk, pad, d, u) = ap trim d ∙ trimmed bytes junk pad u

-- For an even number of hexadecimal digits in either case, the encoder answers, with exactly the
-- number of characters for which it has allocated room, and the decoder turns its answer back into
-- the digits, in lower case.
pub decode_cmd-encode_cmd :
    (encoder decoder s : Bytes)
    → length s % 2 ≡ 0
    → all_hex s ≡ true
    → (chars : Bytes) × (encode_cmd (encoder ∷ s ∷ []) ≡ answered chars)
      × (length chars ≡ (length s / 2 + 4) / 5 * 8)
      × (decode_cmd (decoder ∷ chars ∷ []) ≡ answered (lower s))
unfolding encode_cmd decode_cmd
decode_cmd-encode_cmd encoder decoder s e h =
    let bytes = from_hex s in
    let all = from_hex-All s in
    let long = length-encode bytes in
    let eights : length (encode bytes) % 8 ≡ 0 = omega (arith, long) in
    (
      encode bytes,
      rw h (ground arith),
      omega (arith, long, length-from_hex s),
      rw eights (
          trim-decode (encode bytes) bytes (decode-encode bytes all)
          ∙ ap answered (to_hex-from_hex s e h)),
    )
