-- ===== src/Trace/CleanPath/SamePath.antt =====
-- A path that `__darwintrace_cleanup_path` of src/darwintracelib1.0/darwintrace.c has cleaned names
-- what it named before.
use mac_ports_fork.CString.{Bytes}
use mac_ports_fork.Filemap.FilePath.{skip_slashes, cut_part, steps, same_bytes}
use mac_ports_fork.Prelude.{
  ℕ, suc, ◌<◌, ◌≡◌, ◌≢◌, ◌-◌, ltb, take, drop, refl, sym, ap, ◌∙◌, [], ◌∷◌, ◌++◌, Bool, true, false,
  ◌&&◌, ◌==◌, arith, length, get_or, inl, inr, Bool-cases, length-append, ==_iff, All-take,
  append_assoc, if◌then◌else◌,
}
use mac_ports_fork.Trace.CleanPath.{rsrc_spec, strip_rsrc, cleanup_loop, cleanup_path}
use mac_ports_fork.Trace.CleanPath.Squeeze.{squeeze, squeeze_skip, squeeze_keep, cleanup_loop_lem}
use mac_ports_fork.Trace.Strings.{string_at, string_at-append, IsText}

squeeze-terminator : (saw : Bool) (s : Bytes) → squeeze saw (s ++ 0 ∷ []) ≡ squeeze saw s ++ 0 ∷ []
unfolding squeeze
squeeze-terminator true [] = refl
squeeze-terminator false [] = refl
squeeze-terminator saw (c ∷ s) =
    ground (arith, squeeze-terminator true s, squeeze-terminator (c == b'/') s)

squeeze-IsText : (saw : Bool) (s : Bytes) → IsText s → IsText (squeeze saw s)
unfolding squeeze
squeeze-IsText saw [] h = tt
squeeze-IsText saw (c ∷ s) h = elim (Bool-cases (saw && (c == b'/'))) [
  | inl skip ↦ rw (squeeze_skip saw c s skip) (squeeze-IsText true s h.1)
  | inr keep ↦ rw (squeeze_keep saw c s keep) (h.0, squeeze-IsText (c == b'/') s h.1)
]

either-IsText : (b : Bool) (s t : Bytes) → IsText s → IsText t → IsText (if b then s else t)
either-IsText true s t h k = h
either-IsText false s t h k = k

strip_rsrc-IsText : (s : Bytes) → IsText s → IsText (strip_rsrc s)
unfolding strip_rsrc
strip_rsrc-IsText s h =
    let kept = length s - length rsrc_spec in
    either-IsText (ltb (length rsrc_spec) (length s) && same_bytes (drop kept s) rsrc_spec)
      (take kept s) s (All-take (λ c. 0 < c) kept s h) h

pub cleanup_path-squeeze : (s : Bytes) → IsText s → cleanup_path s ≡ squeeze false (strip_rsrc s)
unfolding cleanup_path
cleanup_path-squeeze s h =
    let p = strip_rsrc s in
    let (left, e) = cleanup_loop_lem (p ++ 0 ∷ []) [] [] 0 0 false (omega arith) (omega arith) in
    let long : suc (length p) ≡ length (p ++ 0 ∷ []) = omega (arith, length-append p (0 ∷ [])) in
    let cleaned : squeeze false (p ++ 0 ∷ []) ++ left ≡ squeeze false p ++ 0 ∷ left =
      ap (λ x. x ++ left) (squeeze-terminator false p)
      ∙ append_assoc (squeeze false p) (0 ∷ []) left in
    ap (λ n. string_at (cleanup_loop n 0 0 false (p ++ 0 ∷ []))) long
    ∙ ap string_at (e ∙ cleaned)
    ∙ string_at-append (squeeze false p) left (squeeze-IsText false p (strip_rsrc-IsText s h))

mutual
  unfolding squeeze skip_slashes cut_part

  steps-squeeze_behind_slash : (s : Bytes) → skip_slashes (squeeze true s) ≡ skip_slashes s
  steps-squeeze_behind_slash [] = refl
  steps-squeeze_behind_slash (c ∷ s) =
      ground (arith, steps-squeeze_behind_slash s, part-squeeze (c ∷ []) s)

  part-squeeze : (part s : Bytes) → cut_part part (squeeze false s) ≡ cut_part part s
  part-squeeze part [] = refl
  part-squeeze part (c ∷ s) =
      ground (arith, steps-squeeze_behind_slash s, part-squeeze (part ++ c ∷ []) s)

steps-squeeze : (s : Bytes) → steps (squeeze false s) ≡ steps s
unfolding steps squeeze
steps-squeeze [] = refl
steps-squeeze (c ∷ s) = ground (arith, steps-squeeze_behind_slash s, part-squeeze (c ∷ []) s)

-- No two slashes side by side.
abbrev pub NoDoubleSlash : Bytes → Type 0
NoDoubleSlash [] = Unit
NoDoubleSlash (c ∷ []) = Unit
NoDoubleSlash (c ∷ d ∷ s) = ¬ ((c ≡ b'/') × (d ≡ b'/')) × NoDoubleSlash (d ∷ s)

NoDoubleSlash-cons :
    (c : ℕ) (s : Bytes)
    → ¬ ((c ≡ b'/') × (get_or s 0 0 ≡ b'/'))
    → NoDoubleSlash s
    → NoDoubleSlash (c ∷ s)
NoDoubleSlash-cons c [] h k = tt
NoDoubleSlash-cons c (d ∷ s) h k = (h, k)

-- Behind a slash no slash is left at the front.
squeeze_front : (s : Bytes) → get_or (squeeze true s) 0 0 ≢ b'/'
unfolding squeeze
squeeze_front [] = λ e. omega arith
squeeze_front (c ∷ s) = λ e. ground (arith, squeeze_front s)

front_of : (c : ℕ) (s : Bytes) → ¬ ((c ≡ b'/') × (get_or (squeeze (c == b'/') s) 0 0 ≡ b'/'))
front_of c s (e, f) =
    squeeze_front s (ap (λ b. get_or (squeeze b s) 0 0) (sym ((==_iff c b'/').1 e)) ∙ f)

squeeze-NoDoubleSlash : (saw : Bool) (s : Bytes) → NoDoubleSlash (squeeze saw s)
unfolding squeeze
squeeze-NoDoubleSlash saw [] = tt
squeeze-NoDoubleSlash saw (c ∷ s) = elim (Bool-cases (saw && (c == b'/'))) [
  | inl skip ↦ rw (squeeze_skip saw c s skip) (squeeze-NoDoubleSlash true s)
  | inr keep ↦ rw (squeeze_keep saw c s keep) (
      NoDoubleSlash-cons c (squeeze (c == b'/') s) (front_of c s)
        (squeeze-NoDoubleSlash (c == b'/') s))
]

-- The in-place loop, on any path: the result has no two slashes side by side, begins with the same
-- byte, and takes the same steps, element for element, as the path without the suffix of its
-- resource fork.
pub steps-cleanup_path :
    (path : Bytes)
    → IsText path
    → NoDoubleSlash (cleanup_path path)
      × (get_or (cleanup_path path) 0 0 ≡ get_or (strip_rsrc path) 0 0)
      × (steps (cleanup_path path) ≡ steps (strip_rsrc path))
steps-cleanup_path path h =
    let p = strip_rsrc path in
    rw (cleanup_path-squeeze path h) (squeeze-NoDoubleSlash false p, first_byte p, steps-squeeze p)
  where
    first_byte : (s : Bytes) → get_or (squeeze false s) 0 0 ≡ get_or s 0 0
    first_byte [] = unfold squeeze in refl
    first_byte (c ∷ s) = unfold squeeze in refl
