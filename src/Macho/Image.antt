-- ===== src/Macho/Image.antt =====
-- A specification of the files that src/machista1.0/libmachista.c reads: the bytes of a little-endian
-- Mach-O file of one architecture, by its header and the libraries that it loads.
use mac_ports_fork.CString.{Bytes}
use mac_ports_fork.Prelude.{
  ℕ, zero, suc, ◌+◌, ◌/◌, ◌%◌, ◌^◌, ◌<◌, ◌≡◌, refl, sym, ap, ◌∙◌, List, [], ◌∷◌, ◌++◌, some, false,
  take, take_all, Bool-cases, inl, inr, ◌==◌, drop, length, All, arith,
}
use mathlib.Core.Option
use mac_ports_fork.Macho.Mapping.{
  Mapping, little, memory, word, read32, field32, macho_nswap32, text, terminated, copied, strlcpy,
}
use mac_ports_fork.Macho.Parse.{mh_magic, lc_load_dylib, lc_load_weak_dylib, lc_reexport_dylib}

-- The four bytes of a word, in front of what follows.
abbrev pub put32 : ℕ → Bytes → Bytes
put32 x r = x % 256 ∷ x / 2 ^ 8 % 256 ∷ x / 2 ^ 16 % 256 ∷ x / 2 ^ 24 % 256 ∷ r

pub data Loading : Type 0 where
  plainly weakly reexported : Loading

abbrev pub loading_kind : Loading → ℕ
loading_kind plainly = lc_load_dylib
loading_kind weakly = lc_load_weak_dylib
loading_kind reexported = lc_reexport_dylib

-- A library that is loaded.
pub record Library : Type 0 where
  pub loading : Loading
  pub name : Bytes
  pub timestamp : ℕ
  pub version_word : ℕ
  pub compatible_word : ℕ

-- A name without NUL, and numbers that their words hold.
pub record IsLibrary (l : Library) : Type 0 where
  pub nonzero : All (λ c. 0 < c) l.name
  pub name_fits : length l.name + 25 < 2 ^ 32
  pub version_fits : l.version_word < 2 ^ 32
  pub compatible_fits : l.compatible_word < 2 ^ 32

-- Its load command: the type, the size, the place of the name and the numbers; then the name and
-- its NUL.
unfoldable pub put_numbers : Library → Bytes → Bytes
put_numbers l r = put32 (loading_kind l.loading) (
    put32 (length l.name + 25)
      (put32 24 (put32 l.timestamp (put32 l.version_word (put32 l.compatible_word r)))))

unfoldable pub put_library : Library → Bytes → Bytes
unfolding put_numbers
put_library l r = put_numbers l (l.name ++ 0 ∷ r)

unfoldable pub put_libraries : List Library → Bytes → Bytes
put_libraries [] r = r
put_libraries (l ∷ ls) r = put_library l (put_libraries ls r)

-- The other words of the header, which the parser does not look at.
pub record Header : Type 0 where
  pub cputype : ℕ
  pub cpusubtype : ℕ
  pub filetype : ℕ
  pub sizeofcmds : ℕ
  pub flags : ℕ

unfoldable pub put_file : Header → List Library → Bytes → Bytes
put_file h ls r = put32 mh_magic (
    put32 h.cputype (
      put32 h.cpusubtype (
        put32 h.filetype
          (put32 (length ls) (put32 h.sizeofcmds (put32 h.flags (put_libraries ls r)))))))

pub word-put32 : (x : ℕ) (r : Bytes) → x < 2 ^ 32 → word little (put32 x r) ≡ some x
unfolding word
word-put32 x r h = ap some (omega arith)

drop_nil : (k : ℕ) → drop {A = ℕ} k [] ≡ []
drop_nil zero = refl
drop_nil (suc k) = refl

pub drop-drop : (a k : ℕ) (s : Bytes) → drop (a + k) s ≡ drop k (drop a s)
drop-drop zero k s = let e : 0 + k ≡ k = omega arith in ap (λ n. drop n s) e
drop-drop (suc a) k [] = drop_nil (suc a + k) ∙ sym (drop_nil k)
drop-drop (suc a) k (c ∷ s) =
    let e : suc a + k ≡ suc (a + k) = omega arith in ap (λ n. drop n (c ∷ s)) e ∙ drop-drop a k s

-- A field, read where a word stands.
pub field32-put32 :
    (m : Mapping) (a k x : ℕ) (s r : Bytes)
    → drop a (memory m) ≡ s
    → drop k s ≡ put32 x r
    → x < 2 ^ 32
    → field32 little false m (a + k) ≡ some x
unfolding field32 read32 macho_nswap32
field32-put32 m a k x s r e f h =
    ap (λ t. Option.map macho_nswap32 (word little t))
      (drop-drop a k (memory m) ∙ ap (drop k) e ∙ f)
    ∙ ap (Option.map macho_nswap32) (word-put32 x r h)

terminated-append : (t r : Bytes) → All (λ c. 0 < c) t → terminated (t ++ 0 ∷ r) ≡ some t
unfolding terminated
terminated-append [] r h = refl
terminated-append (c ∷ t) r h = elim (Bool-cases (c == 0)) [
  | inl e ↦ absurd (ground arith)
  | inr e ↦ rw (e, terminated-append t r h.1) refl
]

-- A name, copied to a buffer that has room for its NUL.
copied-name : (t : Bytes) → copied (suc (length t)) (some t) ≡ some (text (take (length t) t))
unfolding copied
copied-name t = ground arith

pub strlcpy-name :
    (m : Mapping) (a k : ℕ) (s t r : Bytes)
    → drop a (memory m) ≡ s
    → drop k s ≡ t ++ 0 ∷ r
    → All (λ c. 0 < c) t
    → strlcpy m (a + k) (suc (length t)) ≡ some (text t)
unfolding strlcpy
strlcpy-name m a k s t r e f h =
    ap (λ b. copied (suc (length t)) (terminated b)) (drop-drop a k (memory m) ∙ ap (drop k) e ∙ f)
    ∙ ap (copied (suc (length t))) (terminated-append t r h)
    ∙ copied-name t
    ∙ ap (λ b. some (text b)) (take_all (length t) t (omega arith))
