-- ===== src/Trace/Server/Words.antt =====
-- How src/pextlib1.0/tracelib.c takes lists of paths and of ports apart, on lists that are joined by
-- their separator.
use mac_ports_fork.CString.{Bytes}
use mac_ports_fork.Prelude.{
  ℕ, zero, suc, ◌<◌, ◌≡◌, refl, sym, ap, ◌∙◌, List, [], ◌∷◌, ◌++◌, some, true, false, ◌==◌,
  if◌then◌else◌, arith, length, append_assoc, append-nil, All, All-append, get_or, Bool-cases, inl,
  inr,
}
use mac_ports_fork.Trace.Server.{rev_onto, split_colons, sandbox_block, split_spaces, depends_block}
use mac_ports_fork.Trace.Strings.{IsText, IsWord, strings_from, strings}

-- Words with a separator between them.
abbrev pub join : ℕ → List Bytes → Bytes
join sep [] = []
join sep (w ∷ []) = w
join sep (w ∷ v ∷ ws) = w ++ sep ∷ join sep (v ∷ ws)

-- Each word with its terminator, and one more.
abbrev pub block_of : List Bytes → Bytes
block_of [] = 0 ∷ []
block_of (w ∷ ws) = w ++ 0 ∷ block_of ws

abbrev pub IsFree : ℕ → Bytes → Type 0
IsFree sep w = All (λ c. (c == sep) ≡ false) w

pub read_word :
    (part w rest : Bytes)
    → IsText w
    → strings_from part (w ++ 0 ∷ rest) ≡ strings_from (part ++ w) (0 ∷ rest)
unfolding strings_from
read_word part [] rest h = ap (λ p. strings_from p (0 ∷ rest)) (sym (append-nil part))
read_word part (c ∷ w) rest h =
    let e : (c == 0) ≡ false = ground arith in
    rw (strings_from, e) (read_word (part ++ c ∷ []) w rest h.1)
    ∙ ap (λ p. strings_from p (0 ∷ rest)) (append_assoc part (c ∷ []) w)

pub strings-block_of : (ws : List Bytes) → All IsWord ws → strings (block_of ws) ≡ some ws
unfolding strings strings_from
strings-block_of [] h = refl
strings-block_of ([] ∷ ws) h = elim h.0 [ ]
strings-block_of ((c ∷ w) ∷ ws) h =
    read_word [] (c ∷ w) (block_of ws) h.0 ∙ rw (strings_from, strings-block_of ws h.1) refl

-- The separators turned into terminators.
abbrev swapped : ℕ → Bytes → Bytes
swapped sep [] = []
swapped sep (c ∷ s) = (if c == sep then 0 else c) ∷ swapped sep s

swapped-append : (sep : ℕ) (s t : Bytes) → swapped sep (s ++ t) ≡ swapped sep s ++ swapped sep t
swapped-append sep [] t = refl
swapped-append sep (c ∷ s) t = ap (◌∷◌ (if c == sep then 0 else c)) (swapped-append sep s t)

swapped-IsFree : (sep : ℕ) (s : Bytes) → IsFree sep s → swapped sep s ≡ s
swapped-IsFree sep [] h = refl
swapped-IsFree sep (c ∷ s) h = rw h.0 (ap (◌∷◌ c) (swapped-IsFree sep s h.1))

swapped-join :
    (sep : ℕ) (w : Bytes) (ws : List Bytes)
    → All (IsFree sep) (w ∷ ws)
    → swapped sep (join sep (w ∷ ws)) ++ 0 ∷ 0 ∷ [] ≡ block_of (w ∷ ws)
swapped-join sep w [] h = ap (λ s. s ++ 0 ∷ 0 ∷ []) (swapped-IsFree sep w h.0)
swapped-join sep w (v ∷ ws) h =
    let e : (sep == sep) ≡ true = ground arith in
    ap (λ s. s ++ 0 ∷ 0 ∷ []) (swapped-append sep w (sep ∷ join sep (v ∷ ws)))
    ∙ append_assoc (swapped sep w) (swapped sep (sep ∷ join sep (v ∷ ws))) (0 ∷ 0 ∷ [])
    ∙ rw (swapped-IsFree sep w h.0, e) (ap (λ s. w ++ 0 ∷ s) (swapped-join sep v ws h.1))

module _ (fuel c : ℕ) (front s : Bytes) where
  split_colons-other :
      (c == b':') ≡ false → split_colons (suc fuel) front (c ∷ s) ≡ split_colons fuel (c ∷ front) s
  unfolding split_colons
  split_colons-other e = rw (split_colons, e) refl

  split_colons-colon :
      (c == b':') ≡ true
      → (get_or front 0 0 == b'\\') ≡ false
      → split_colons (suc fuel) front (c ∷ s) ≡ split_colons fuel (0 ∷ front) s
  unfolding split_colons
  split_colons-colon e h = at_front front h
    where
      at_front :
          (b : Bytes)
          → (get_or b 0 0 == b'\\') ≡ false
          → split_colons (suc fuel) b (c ∷ s) ≡ split_colons fuel (0 ∷ b) s
      at_front [] k = rw (split_colons, e) refl
      at_front (d ∷ b) k = rw (split_colons, e, k) refl

-- Without a backslash, the loop over the sandbox is `swapped`.
split_colons-swapped :
    (fuel : ℕ) (front s : Bytes)
    → length s < fuel
    → (get_or front 0 0 == b'\\') ≡ false
    → IsFree b'\\' s
    → split_colons fuel front s ≡ rev_onto front (swapped b':' s)
split_colons-swapped zero front s l h k = absurd (omega arith)
split_colons-swapped (suc fuel) front [] l h k = unfold split_colons in refl
split_colons-swapped (suc fuel) front (c ∷ s) l h k = elim (Bool-cases (c == b':')) [
  | inl e ↦
      split_colons-colon fuel c front s e h
      ∙ split_colons-swapped fuel (0 ∷ front) s (omega arith) refl k.1
      ∙ (unfold rev_onto in rw e refl)
  | inr e ↦
      split_colons-other fuel c front s e
      ∙ split_colons-swapped fuel (c ∷ front) s (omega arith) k.0 k.1
      ∙ (unfold rev_onto in rw e refl)
]

sandbox_block-swapped :
    (c : ℕ) (s : Bytes)
    → (c == b':') ≡ false
    → (c == b'\\') ≡ false
    → IsFree b'\\' s
    → sandbox_block (c ∷ s) ≡ swapped b':' (c ∷ s) ++ 0 ∷ 0 ∷ []
unfolding sandbox_block rev_onto
sandbox_block-swapped c s e k h =
    ap (λ x. x ++ 0 ∷ 0 ∷ []) (split_colons-swapped (suc (length s)) (c ∷ []) s (omega arith) k h)
    ∙ rw e refl

-- No two separators side by side.
abbrev Spaced : Bytes → Type 0
Spaced [] = Unit
Spaced (c ∷ []) = Unit
Spaced (c ∷ d ∷ s) = ¬ ((c ≡ b' ') × (d ≡ b' ')) × Spaced (d ∷ s)

Spaced-rest : (c : ℕ) (s : Bytes) → Spaced (c ∷ s) → Spaced s
Spaced-rest c [] h = tt
Spaced-rest c (d ∷ s) h = h.1

split_spaces-swapped : (s : Bytes) → Spaced s → split_spaces s ≡ swapped b' ' s
unfolding split_spaces
split_spaces-swapped [] h = refl
split_spaces-swapped (c ∷ []) h = refl
split_spaces-swapped (c ∷ d ∷ s) h =
    let next = split_spaces-swapped (d ∷ s) h.1 in
    let after = split_spaces-swapped s (Spaced-rest d s h.1) in ground (arith, next, after, h.0)

IsFree-join :
    (x sep : ℕ) (ws : List Bytes) → (sep == x) ≡ false → All (IsFree x) ws → IsFree x (join sep ws)
IsFree-join x sep [] e h = tt
IsFree-join x sep (w ∷ []) e h = h.0
IsFree-join x sep (w ∷ v ∷ ws) e h =
    All-append (λ c. (c == x) ≡ false) w (sep ∷ join sep (v ∷ ws)) h.0
      (e, IsFree-join x sep (v ∷ ws) e h.1)

-- The paths of a sandbox, without colons and backslashes in them, come out as they went in.
pub strings-sandbox_block :
    (ws : List Bytes)
    → All IsWord ws
    → All (IsFree b':') ws
    → All (IsFree b'\\') ws
    → strings (sandbox_block (join b':' ws)) ≡ some ws
strings-sandbox_block [] h f g = unfold sandbox_block strings in refl
strings-sandbox_block ([] ∷ ws) h f g = elim h.0 [ ]
strings-sandbox_block ((c ∷ w) ∷ ws) h f g =
    ap strings (plain ws f g) ∙ strings-block_of ((c ∷ w) ∷ ws) h
  where
    plain :
        (vs : List Bytes)
        → All (IsFree b':') ((c ∷ w) ∷ vs)
        → All (IsFree b'\\') ((c ∷ w) ∷ vs)
        → sandbox_block (join b':' ((c ∷ w) ∷ vs)) ≡ block_of ((c ∷ w) ∷ vs)
    plain [] f g = sandbox_block-swapped c w f.0.0 g.0.0 g.0.1 ∙ swapped-join b':' (c ∷ w) [] f
    plain (v ∷ vs) f g =
        sandbox_block-swapped c (w ++ b':' ∷ join b':' (v ∷ vs)) f.0.0 g.0.0
          (IsFree-join b'\\' b':' ((c ∷ w) ∷ v ∷ vs) refl g).1
        ∙ swapped-join b':' (c ∷ w) (v ∷ vs) f

Spaced-cons :
    (c : ℕ) (s : Bytes) → ¬ ((c ≡ b' ') × (get_or s 0 0 ≡ b' ')) → Spaced s → Spaced (c ∷ s)
Spaced-cons c [] h k = tt
Spaced-cons c (d ∷ s) h k = (h, k)

Spaced-append :
    (w t : Bytes)
    → IsFree b' ' w
    → (get_or t 0 0 == b' ') ≡ false
    → Spaced t
    → Spaced (w ++ b' ' ∷ t)
Spaced-append [] t h e k = Spaced-cons b' ' t (λ p. ground arith) k
Spaced-append (c ∷ w) t h e k =
    Spaced-cons c (w ++ b' ' ∷ t) (λ p. ground arith) (Spaced-append w t h.1 e k)

Spaced-free : (w : Bytes) → IsFree b' ' w → Spaced w
Spaced-free [] h = tt
Spaced-free (c ∷ w) h = Spaced-cons c w (λ p. ground arith) (Spaced-free w h.1)

first_of_join :
    (w : Bytes) (ws : List Bytes)
    → IsWord w
    → IsFree b' ' w
    → (get_or (join b' ' (w ∷ ws)) 0 0 == b' ') ≡ false
first_of_join [] ws h f = elim h [ ]
first_of_join (c ∷ w) [] h f = f.0
first_of_join (c ∷ w) (v ∷ ws) h f = f.0

Spaced-join : (ws : List Bytes) → All IsWord ws → All (IsFree b' ') ws → Spaced (join b' ' ws)
Spaced-join [] h f = tt
Spaced-join (w ∷ []) h f = Spaced-free w f.0
Spaced-join (w ∷ v ∷ ws) h f =
    Spaced-append w (join b' ' (v ∷ ws)) f.0 (first_of_join v ws h.1.0 f.1.0)
      (Spaced-join (v ∷ ws) h.1 f.1)

-- The names of ports, with single spaces between them, come out as they went in.
pub strings-depends_block :
    (ws : List Bytes)
    → All IsWord ws
    → All (IsFree b' ') ws
    → strings (depends_block (join b' ' ws)) ≡ some ws
strings-depends_block [] h f = unfold split_spaces strings in refl
strings-depends_block (w ∷ ws) h f =
    ap (λ s. strings (s ++ 0 ∷ 0 ∷ []))
      (split_spaces-swapped (join b' ' (w ∷ ws)) (Spaced-join (w ∷ ws) h f))
    ∙ ap strings (swapped-join b' ' w ws f)
    ∙ strings-block_of (w ∷ ws) h
