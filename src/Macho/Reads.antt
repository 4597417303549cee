-- ===== src/Macho/Reads.antt =====
-- The reads of src/machista1.0/libmachista.c inside a window: `macho_read`, the uint32_t fields and
-- the names.
use mac_ports_fork.CString.{Bytes}
use mac_ports_fork.Prelude.{
  ℕ, zero, suc, ◌+◌, ◌-◌, ◌^◌, ◌<◌, ◌≤◌, ◌≡◌, refl, ap, ◌∙◌, [], ◌∷◌, ◌++◌, Option, some, Bool,
  true, false, Bool-cases, inl, inr, ◌==◌, drop, take, length, length-append, length-take_le, All,
  All-take, arith,
}
use mathlib.Core.Option
use mac_ports_fork.Macho.Mapping.{
  Host, little, big, Mapping, Input, memory, zeros, word, macho_swap32, macho_nswap32, read32,
  field32, fat32, big_to_host, macho_read, Name, unset, text, terminated, copied, strlcpy,
}
use mac_ports_fork.Macho.HostOrder.{AreBytes, AreBytes-drop, AreBytes-memory}
use mac_ports_fork.Macho.Fits.{NameFits}

pub macho_read_bounds :
    (input : Input) (a len p : ℕ)
    → macho_read input a len ≡ some p
    → (p ≡ a) × (a - input.start + len ≤ input.size)
unfolding macho_read
macho_read_bounds input a len p h = ground arith

pub macho_read-some :
    (input : Input) (a len : ℕ)
    → a - input.start + len ≤ input.size
    → macho_read input a len ≡ some a
unfolding macho_read
macho_read-some input a len h = ground arith

-- A word that is there.
word-some :
    (h : Host) (s : Bytes)
    → AreBytes s
    → 4 ≤ length s
    → (x : ℕ) × (word h s ≡ some x) × (x < 2 ^ 32)
unfolding word
word-some h [] b l = absurd (omega arith)
word-some h (a ∷ []) b l = absurd (omega arith)
word-some h (a ∷ c ∷ []) b l = absurd (omega arith)
word-some h (a ∷ c ∷ d ∷ []) b l = absurd (omega arith)
word-some little (a ∷ c ∷ d ∷ e ∷ r) b l = (_, refl, omega arith)
word-some big (a ∷ c ∷ d ∷ e ∷ r) b l = (_, refl, omega arith)

length-drop : (n : ℕ) (s : Bytes) → length (drop n s) ≡ length s - n
length-drop zero s = omega arith
length-drop (suc n) [] = omega arith
length-drop (suc n) (c ∷ s) = omega (arith, length-drop n s)

drop-append : (n : ℕ) (s t : Bytes) → n ≤ length s → drop n (s ++ t) ≡ drop n s ++ t
drop-append zero s t h = refl
drop-append (suc n) [] t h = absurd (omega arith)
drop-append (suc n) (c ∷ s) t h = drop-append n s t (omega arith)

swap32-lt : (x : ℕ) → macho_swap32 x < 2 ^ 32
unfolding macho_swap32
swap32-lt x = omega arith

abbrev pub HasWord : Option ℕ → Type 0
HasWord o = (x : ℕ) × (o ≡ some x) × (x < 2 ^ 32)

module _ (m : Mapping) (bytes : AreBytes m.file) where
  pub read32-HasWord : (h : Host) (a : ℕ) → a + 4 ≤ length m.file → HasWord (read32 h m a)
  unfolding read32
  read32-HasWord h a fits =
      word-some h (drop a (memory m)) (AreBytes-drop a (memory m) (AreBytes-memory m bytes))
        (omega (arith, length-drop a (memory m), length-append m.file (zeros m.padding)))

  swapped :
      (f : ℕ → ℕ) (o : Option ℕ)
      → ((x : ℕ) → x < 2 ^ 32 → f x < 2 ^ 32)
      → HasWord o
      → HasWord (Option.map f o)
  swapped f o keep (x, e, l) = (f x, rw e refl, keep x l)

  pub field32-HasWord :
      (h : Host) (swap : Bool) (a : ℕ) → a + 4 ≤ length m.file → HasWord (field32 h swap m a)
  unfolding field32 macho_nswap32
  field32-HasWord h true a fits = swapped _ _ (λ x l. swap32-lt x) (read32-HasWord h a fits)
  field32-HasWord h false a fits = swapped _ _ (λ x l. l) (read32-HasWord h a fits)

  pub fat32-HasWord : (h : Host) (a : ℕ) → a + 4 ≤ length m.file → HasWord (fat32 h m a)
  unfolding fat32 big_to_host
  fat32-HasWord little a fits = swapped _ _ (λ x l. swap32-lt x) (read32-HasWord little a fits)
  fat32-HasWord big a fits = swapped _ _ (λ x l. l) (read32-HasWord big a fits)

-- Where a zero byte follows, a string ends.
terminated-some :
    (s t : Bytes) → (r : Bytes) × (terminated (s ++ 0 ∷ t) ≡ some r) × All (λ c. 0 < c) r
unfolding terminated
terminated-some [] t = ([], refl, tt)
terminated-some (c ∷ s) t = elim (Bool-cases (c == 0)) [
  | inl e ↦ ([], rw e refl, tt)
  | inr e ↦ let (r, f, p) = terminated-some s t in (c ∷ r, rw (e, f) refl, (ground arith, p))
]

terminated-zeros :
    (s : Bytes) (k : ℕ)
    → 0 < k
    → (r : Bytes) × (terminated (s ++ zeros k) ≡ some r) × All (λ c. 0 < c) r
terminated-zeros s zero h = absurd (omega arith)
terminated-zeros s (suc k) h = terminated-some s (zeros k)

module _ (m : Mapping) (src : ℕ) (pad : 0 < m.padding) (inside : src ≤ length m.file) where
  terminated-memory : (r : Bytes) × (terminated (drop src (memory m)) ≡ some r) × All (λ c. 0 < c) r
  terminated-memory =
      rw (drop-append src m.file (zeros m.padding) inside)
        (terminated-zeros (drop src m.file) m.padding pad)

  copied-some :
      (size : ℕ) (t : Bytes)
      → size ≤ length m.file
      → All (λ c. 0 < c) t
      → (name : Name) × (copied size (some t) ≡ some name) × NameFits (length m.file) name
  unfolding copied
  copied-some zero t fits p = (unset, refl, tt)
  copied-some (suc n) t fits p =
      (text (take n t), ground arith, (omega (arith, length-take_le n t), All-take _ n t p))

  -- With a byte of padding `strlcpy` ends, and stores a text that its buffer holds.
  pub strlcpy-some :
      (size : ℕ)
      → size ≤ length m.file
      → (name : Name) × (strlcpy m src size ≡ some name) × NameFits (length m.file) name
  unfolding strlcpy
  strlcpy-some size fits =
      let (t, f, p) = terminated-memory in
      let (name, e, h) = copied-some size t fits p in (name, ap (copied size) f ∙ e, h)
