-- ===== src/Trace/CleanPath/Squeeze.antt =====
-- What `__darwintrace_cleanup_path` of src/darwintracelib1.0/darwintrace.c does to a path.
use mac_ports_fork.CString.{Bytes}
use mac_ports_fork.Prelude.{
  ℕ, suc, ◌+◌, ◌-◌, ◌≡◌, refl, sym, ap, ◌∙◌, [], ◌∷◌, ◌++◌, Bool, true, false, ◌&&◌, ◌==◌, arith,
  length, get_or, set, append_assoc, append-nil, length-append, inl, inr, Bool-cases,
}
use mac_ports_fork.Trace.CleanPath.{cleanup_loop}

-- The loop as a function of what is left of the string.
unfoldable pub squeeze : Bool → Bytes → Bytes
squeeze saw_slash [] = []
squeeze saw_slash (c ∷ s) = elim (saw_slash && (c == b'/')) [
  | true ↦ squeeze true s
  | false ↦ c ∷ squeeze (c == b'/') s
]

pub squeeze_skip :
    (saw : Bool) (c : ℕ) (s : Bytes)
    → (saw && (c == b'/')) ≡ true
    → squeeze saw (c ∷ s) ≡ squeeze true s
unfolding squeeze
squeeze_skip saw c s h = rw (h, squeeze) refl

pub squeeze_keep :
    (saw : Bool) (c : ℕ) (s : Bytes)
    → (saw && (c == b'/')) ≡ false
    → squeeze saw (c ∷ s) ≡ c ∷ squeeze (c == b'/') s
unfolding squeeze
squeeze_keep saw c s h = rw (h, squeeze) refl

get_or-append : (xs ys : Bytes) (y : ℕ) → get_or (xs ++ y ∷ ys) (length xs) 0 ≡ y
get_or-append [] ys y = refl
get_or-append (x ∷ xs) ys y = get_or-append xs ys y

set-append : (xs ys : Bytes) (y z : ℕ) → set (xs ++ y ∷ ys) (length xs) z ≡ xs ++ z ∷ ys
set-append [] ys y z = refl
set-append (x ∷ xs) ys y z = ap (◌∷◌ x) (set-append xs ys y z)

-- The memory between the bytes that are written and the bytes that are left, after a write.
next_junk : Bytes → ℕ → Bytes
next_junk [] c = []
next_junk (j ∷ js) c = js ++ c ∷ []

length-next_junk : (junk : Bytes) (c : ℕ) → length (next_junk junk c) ≡ length junk
unfolding next_junk
length-next_junk [] c = refl
length-next_junk (j ∷ js) c = omega (arith, length-append js (c ∷ []))

set_next :
    (out junk rest : Bytes) (c : ℕ)
    → set (out ++ (junk ++ c ∷ rest)) (length out) c ≡ (out ++ c ∷ []) ++ (next_junk junk c ++ rest)
unfolding next_junk
set_next [] [] rest c = refl
set_next [] (j ∷ js) rest c = ap (◌∷◌ c) (sym (append_assoc js (c ∷ []) rest))
set_next (x ∷ out) junk rest c = ap (◌∷◌ x) (set_next out junk rest c)

read_next :
    (out junk rest : Bytes) (c i : ℕ)
    → i ≡ length out + length junk
    → get_or (out ++ (junk ++ c ∷ rest)) i 0 ≡ c
read_next out junk rest c i e =
    let e' : i ≡ length (out ++ junk) = omega (arith, length-append out junk) in
    rw (e', ← append_assoc out junk (c ∷ rest)) (get_or-append (out ++ junk) rest c)

module _ (n i shift c : ℕ) (saw : Bool) (buf : Bytes) (e : get_or buf i 0 ≡ c) where
  loop_skips :
      (saw && (c == b'/')) ≡ true
      → cleanup_loop (suc n) i shift saw buf ≡ cleanup_loop n (suc i) (suc shift) true buf
  unfolding cleanup_loop
  loop_skips h =
      let test : (saw && (get_or buf i 0 == b'/')) ≡ true = ap (λ k. saw && (k == b'/')) e ∙ h in
      rw (test, cleanup_loop) refl

  loop_writes :
      (saw && (c == b'/')) ≡ false
      → cleanup_loop (suc n) i shift saw buf
        ≡ cleanup_loop n (suc i) shift (c == b'/') (set buf (i - shift) c)
  unfolding cleanup_loop
  loop_writes h =
      let test : (saw && (get_or buf i 0 == b'/')) ≡ false = ap (λ k. saw && (k == b'/')) e ∙ h in
      rw (test, cleanup_loop)
        (ap (λ k. cleanup_loop n (suc i) shift (k == b'/') (set buf (i - shift) k)) e)

-- With the bytes that are written, some memory that is stale, and the bytes that are left.
pub cleanup_loop_lem :
    (rest out junk : Bytes) (i shift : ℕ) (saw : Bool)
    → i ≡ length out + length junk
    → shift ≡ length junk
    → (left : Bytes) × (cleanup_loop (length rest) i shift saw (out ++ (junk ++ rest))
        ≡ out ++ (squeeze saw rest ++ left))
unfolding squeeze
cleanup_loop_lem [] out junk i shift saw e f =
    (junk, unfold cleanup_loop in ap (λ s. out ++ s) (append-nil junk))
cleanup_loop_lem (c ∷ s) out junk i shift saw e f =
    let buf = out ++ (junk ++ c ∷ s) in
    let here = read_next out junk s c i e in
    elim (Bool-cases (saw && (c == b'/'))) [
      | inl skip ↦
          let (left, q) =
            cleanup_loop_lem s out (junk ++ c ∷ []) (suc i) (suc shift) true
              (omega (arith, length-append junk (c ∷ [])))
              (omega (arith, length-append junk (c ∷ []))) in
          let same : buf ≡ out ++ ((junk ++ c ∷ []) ++ s) =
            ap (λ x. out ++ x) (sym (append_assoc junk (c ∷ []) s)) in
          (
            left,
            loop_skips (length s) i shift c saw buf here skip
                ∙ ap (cleanup_loop (length s) (suc i) (suc shift) true) same
                ∙ q
                ∙ ap (λ x. out ++ (x ++ left)) (sym (squeeze_skip saw c s skip)),
          )
      | inr keep ↦
          let (left, q) =
            cleanup_loop_lem s (out ++ c ∷ []) (next_junk junk c) (suc i) shift (c == b'/')
              (omega (arith, length-append out (c ∷ []), length-next_junk junk c))
              (omega (arith, length-next_junk junk c)) in
          let at : i - shift ≡ length out = omega arith in
          (
            left,
            loop_writes (length s) i shift c saw buf here keep
                ∙ ap (cleanup_loop (length s) (suc i) shift (c == b'/'))
                    (ap (λ k. set buf k c) at ∙ set_next out junk s c)
                ∙ q
                ∙ append_assoc out (c ∷ []) (squeeze (c == b'/') s ++ left)
                ∙ ap (λ x. out ++ (x ++ left)) (sym (squeeze_keep saw c s keep)),
          )
    ]
