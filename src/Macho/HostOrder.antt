-- ===== src/Macho/HostOrder.antt =====
-- The byte order of the machine: `parse_macho` of src/machista1.0/libmachista.c on a little-endian
-- and on a big-endian machine.
use mac_ports_fork.CString.{Bytes}
use mac_ports_fork.Prelude.{
  ℕ, zero, suc, ◌^◌, ◌<◌, ◌≡◌, refl, sym, ap, ◌∙◌, [], ◌∷◌, Option, none, some, Bool, true, false,
  not, drop, All, All-append, arith, Option-cases, inl, inr,
}
use mathlib.Core.Path.{fun_ext}
use mathlib.Core.Option
use mac_ports_fork.Macho.Mapping.{
  little, big, Mapping, Input, memory, zeros, word, macho_swap32, macho_nswap32, read32, field32,
  fat32, big_to_host, macho_read,
}
use mac_ports_fork.Macho.Result.{State, M, ◌>>=◌, check, dereference}
use mac_ports_fork.Macho.Parse.{
  Format, thin, universal, unknown, format, parse_thin, parse_universal, parse_format, parse_macho,
}

abbrev pub AreBytes : Bytes → Type 0
AreBytes = All (λ c. c < 256)

pub AreBytes-drop : (n : ℕ) (s : Bytes) → AreBytes s → AreBytes (drop n s)
AreBytes-drop zero s h = h
AreBytes-drop (suc n) [] h = h
AreBytes-drop (suc n) (c ∷ s) h = AreBytes-drop n s h.1

AreBytes-zeros : (n : ℕ) → AreBytes (zeros n)
AreBytes-zeros zero = tt
AreBytes-zeros (suc n) = (omega arith, AreBytes-zeros n)

pub AreBytes-memory : (m : Mapping) → AreBytes m.file → AreBytes (memory m)
AreBytes-memory m h = All-append _ m.file (zeros m.padding) h (AreBytes-zeros m.padding)

-- The words of the two machines mirror each other.
word_big : (s : Bytes) → AreBytes s → word big s ≡ Option.map macho_swap32 (word little s)
unfolding word macho_swap32
word_big [] h = refl
word_big (a ∷ []) h = refl
word_big (a ∷ b ∷ []) h = refl
word_big (a ∷ b ∷ c ∷ []) h = refl
word_big (a ∷ b ∷ c ∷ d ∷ r) h = ap some (omega arith)

word_little : (s : Bytes) → AreBytes s → word little s ≡ Option.map macho_swap32 (word big s)
unfolding word macho_swap32
word_little [] h = refl
word_little (a ∷ []) h = refl
word_little (a ∷ b ∷ []) h = refl
word_little (a ∷ b ∷ c ∷ []) h = refl
word_little (a ∷ b ∷ c ∷ d ∷ r) h = ap some (omega arith)

map_nswap32 : (o : Option ℕ) → Option.map macho_nswap32 o ≡ o
unfolding macho_nswap32
map_nswap32 none = refl
map_nswap32 (some x) = refl

map_big : (o : Option ℕ) → Option.map (big_to_host big) o ≡ o
unfolding big_to_host
map_big none = refl
map_big (some x) = refl

-- The format that the other machine finds.
mirror : Format → Format
mirror (thin swap n) = thin (not swap) n
mirror universal = universal
mirror unknown = unknown

format-swap32 : (x : ℕ) → x < 2 ^ 32 → format (macho_swap32 x) ≡ mirror (format x)
unfolding format macho_swap32 mirror
format-swap32 x h = ground arith

module _ (m : Mapping) (bytes : AreBytes m.file) where
  read32_big : (a : ℕ) → read32 big m a ≡ Option.map macho_swap32 (read32 little m a)
  unfolding read32
  read32_big a = word_big _ (AreBytes-drop a (memory m) (AreBytes-memory m bytes))

  read32_little : (a : ℕ) → read32 little m a ≡ Option.map macho_swap32 (read32 big m a)
  unfolding read32
  read32_little a = word_little _ (AreBytes-drop a (memory m) (AreBytes-memory m bytes))

  -- Where one machine swaps, the other does not.
  field32_hosts : (swap : Bool) (a : ℕ) → field32 little swap m a ≡ field32 big (not swap) m a
  unfolding field32
  field32_hosts true a = sym (read32_big a) ∙ sym (map_nswap32 _)
  field32_hosts false a = map_nswap32 _ ∙ read32_little a

  fat32_hosts : (a : ℕ) → fat32 little m a ≡ fat32 big m a
  unfolding fat32 big_to_host
  fat32_hosts a = sym (read32_big a) ∙ sym (map_big _)

  word_lt : (s : Bytes) (x : ℕ) → AreBytes s → word little s ≡ some x → x < 2 ^ 32
  unfolding word
  word_lt [] x h e = cc
  word_lt (a ∷ []) x h e = cc
  word_lt (a ∷ b ∷ []) x h e = cc
  word_lt (a ∷ b ∷ c ∷ []) x h e = cc
  word_lt (a ∷ b ∷ c ∷ d ∷ r) x h e = ground arith

  -- A step that begins with the magic: the parse of the other machine goes on with the mirrored
  -- format.
  magic_hosts :
      (k k' : Format → M (Unit {0}))
      → ((f : Format) → k f ≡ k' (mirror f))
      → (a : ℕ)
      → (dereference (read32 little m a) >>= λ magic. k (format magic))
        ≡ (dereference (read32 big m a) >>= λ magic. k' (format magic))
  unfolding dereference
  magic_hosts k k' same a = elim (Option-cases (read32 little m a)) [
    | inl e ↦ rw (read32_big a, e) refl
    | inr (x, e) ↦
        rw (read32_big a, e)
          (same (format x)
            ∙ ap k' (sym (format-swap32 x (word_lt _ x bytes_at (unfold read32 in e)))))
  ]
    where
      bytes_at : AreBytes (drop a (memory m))
      bytes_at = AreBytes-drop a (memory m) (AreBytes-memory m bytes)

  parse_format_hosts :
      (parse parse' : Input → M (Unit {0})) (input : Input) (f : Format)
      → parse ≡ parse'
      → parse_format little m parse input f ≡ parse_format big m parse' input (mirror f)
  unfolding parse_format mirror
  parse_format_hosts parse parse' input (thin swap n) e =
      ap (λ fetch. parse_thin fetch m input n) (fun_ext (field32_hosts swap))
  parse_format_hosts parse parse' input universal e =
      ap (λ fetch. parse_universal fetch parse input) (fun_ext fat32_hosts)
      ∙ ap (λ p. parse_universal (fat32 big m) p input) e
  parse_format_hosts parse parse' input unknown e = refl

  parse_macho_hosts : (depth : ℕ) → parse_macho little m depth ≡ parse_macho big m depth
  unfolding parse_macho
  parse_macho_hosts zero = refl
  parse_macho_hosts (suc depth) = fun_ext λ input.
      ap (λ k. check (macho_read input input.start 4) >>= k)
        (fun_ext (
          magic_hosts (parse_format little m (parse_macho little m depth) input)
            (parse_format big m (parse_macho big m depth) input)
            (λ f. parse_format_hosts _ _ input f (parse_macho_hosts depth))))

-- On a file of bytes the parser does the same on machines of either byte order: the result, the
-- code and the failure are equal, for every window and state.
pub parse_macho-hosts :
    (m : Mapping) (depth : ℕ) (input : Input) (s : State)
    → AreBytes m.file
    → parse_macho little m depth input s ≡ parse_macho big m depth input s
parse_macho-hosts m depth input s h = ap (λ p. p input s) (parse_macho_hosts m h depth)
