-- ===== src/Trace/Server/Ports.antt =====
-- `dep_check` of src/pextlib1.0/tracelib.c, on dependencies that `TracelibSetDeps` has set.
use mac_ports_fork.CString.{Bytes}
use mac_ports_fork.Filemap.FilePath.{same_bytes, same_bytes_iff}
use mac_ports_fork.Prelude.{
  ◌≡◌, ◌≢◌, refl, sym, ◌∙◌, List, [], ◌∷◌, some, Bool, true, false, ◌↔◌, Bool-cases, inl, inr, All,
}
use mac_ports_fork.Trace.Server.{Tracelib, set_deps, dep_check, has_string}
use mac_ports_fork.Trace.Server.Words.{join, IsFree, strings-depends_block}
use mac_ports_fork.Trace.Strings.{IsWord}
use mathlib.Core.Bool.{Bool-set, false≢true, true≢false}
use mathlib.Core.List.{Mem, Memᴰ, not-mem-nil, mem-cons_of_mem}
use mathlib.Core.Logic.{∥∥₁_elim}

module _ (s t : Bytes) (ts : List Bytes) where
  has_string-here : same_bytes t s ≡ true → has_string s (t ∷ ts) ≡ true
  unfolding has_string
  has_string-here e = rw e refl

  has_string-there : same_bytes t s ≡ false → has_string s (t ∷ ts) ≡ has_string s ts
  unfolding has_string
  has_string-there e = rw e refl

  has_string-cons :
      (has_string s ts ≡ true) ↔ Mem s ts → (has_string s (t ∷ ts) ≡ true) ↔ Mem s (t ∷ ts)
  has_string-cons ih = (
    λ e. elim (Bool-cases (same_bytes t s)) [
      | inl same ↦ ∣ Memᴰ.head (sym ((same_bytes_iff t s).0 same)) ∣₁
      | inr not_same ↦ mem-cons_of_mem t (ih.0 (sym (has_string-there not_same) ∙ e))
    ],
    λ m. ∥∥₁_elim m (Bool-set (has_string s (t ∷ ts)) true) back,
  )
    where
      back : Memᴰ s (t ∷ ts) → has_string s (t ∷ ts) ≡ true
      back (Memᴰ.head e) = has_string-here ((same_bytes_iff t s).1 (sym e))
      back (Memᴰ.tail d) = elim (Bool-cases (same_bytes t s)) [
        | inl same ↦ has_string-here same
        | inr not_same ↦ has_string-there not_same ∙ ih.1 ∣ d ∣₁
      ]

has_string-Mem : (s : Bytes) (ts : List Bytes) → (has_string s ts ≡ true) ↔ Mem s ts
has_string-Mem s [] = (unfold has_string in λ e. absurd (false≢true e), λ m. absurd (not-mem-nil m))
has_string-Mem s (t ∷ ts) = has_string-cons s t ts (has_string-Mem s ts)

-- The answer to a question about a port's file is '+' exactly if the port is not "0", which stands
-- for no port, and is one of those that were last set, which are words with single spaces between
-- them. An answer is always given, whatever the server's state was before.
pub dep_check-set_deps :
    (tl : Tracelib) (w₀ w₁ port : Bytes) (names : List Bytes)
    → All IsWord names
    → All (IsFree b' ') names
    → (b : Bool) × (dep_check (set_deps (w₀ ∷ w₁ ∷ join b' ' names ∷ []) tl).1 port ≡ some b)
      × ((b ≡ true) ↔ ((port ≢ b'0' ∷ []) × Mem port names))
unfolding dep_check set_deps
dep_check-set_deps tl w₀ w₁ port names h f = elim (Bool-cases (same_bytes port (b'0' ∷ []))) [
  | inl none_such ↦ (
    false,
    rw none_such refl,
    (λ e. absurd (false≢true e), λ k. absurd (k.0 ((same_bytes_iff port (b'0' ∷ [])).0 none_such))),
  )
  | inr some_such ↦ (
    has_string port names,
    rw (some_such, strings-depends_block names h f) refl,
    (
      λ e. (
        λ p. absurd (true≢false (sym ((same_bytes_iff port (b'0' ∷ [])).1 p) ∙ some_such)),
        (has_string-Mem port names).0 e,
      ),
      λ k. (has_string-Mem port names).1 k.1,
    ),
  )
]
