-- ===== src/Trace/Environment/Restored.antt =====
-- What `__darwintrace_restore_env` of src/darwintracelib1.0/darwintrace.c makes of an environment.
use mac_ports_fork.CString.{Bytes}
use mac_ports_fork.Prelude.{
  suc, ◌+◌, ◌≤◌, ◌≡◌, refl, sym, ap, ◌∙◌, List, [], ◌∷◌, ◌++◌, Option, none, some, Bool, true,
  false, Option-cases, inl, inr, arith, length, length-append, append_assoc, append-nil,
  if◌then◌else◌,
}
use mac_ports_fork.Trace.Environment.{
  Var, insert_libraries, flat_namespace, trace_log, Saved, value_of, without, emit, entry,
  alloc_env, var_name, is_var, var_of, restore_loop, restore_env,
}
use mac_ports_fork.Trace.Rules.{strbeginswith}
use mac_ports_fork.Trace.Environment.Entries.{
  ours, others, ours-append, same, ours-entry, entry-without,
}

-- The strings that are not of the three variables, by the tests of the loop.
not_ours : (v : Var) (s : Bytes) → var_of s ≡ none → is_var v s ≡ false
unfolding var_of
not_ours v s e =
    let (a, b, c) =
      untaken (is_var insert_libraries s) (is_var flat_namespace s) (is_var trace_log s) e in
    each v a b c
  where
    untaken :
        (a b c : Bool)
        → (if a
            then some insert_libraries
            else if b
            then some flat_namespace
            else if c
            then some trace_log
            else none)
          ≡ none
        → (a ≡ false) × (b ≡ false) × (c ≡ false)
    untaken true b c e = absurd cc
    untaken false true c e = absurd cc
    untaken false false true e = absurd cc
    untaken false false false e = (refl, refl, refl)

    each :
        (v : Var)
        → is_var insert_libraries s ≡ false
        → is_var flat_namespace s ≡ false
        → is_var trace_log s ≡ false
        → is_var v s ≡ false
    each insert_libraries a b c = a
    each flat_namespace a b c = b
    each trace_log a b c = c

ours-other :
    (v : Var) (s : Bytes) (env : List Bytes) → var_of s ≡ none → ours v (s ∷ env) ≡ ours v env
ours-other v s env e = rw (not_ours v s e) refl

-- What the loop has copied of a variable, with what is left of it, is its entry.
ours-restore_loop :
    (v : Var) (left : Saved) (envp : List Bytes)
    → ours v (restore_loop left envp).0 ++ entry v (restore_loop left envp).1 ≡ entry v left
unfolding restore_loop
ours-restore_loop v left [] = refl
ours-restore_loop v left (s ∷ envp) = elim (Option-cases (var_of s)) [
  | inl e ↦
      rw (restore_loop, e)
        (ap (λ env. env ++ entry v (restore_loop left envp).1)
            (ours-other v s (restore_loop left envp).0 e)
          ∙ ours-restore_loop v left envp)
  | inr (w, e) ↦
      let rest = restore_loop (without w left) envp in
      rw (restore_loop, e)
        (ap (λ env. env ++ entry v rest.1) (ours-append v (entry w left) rest.0)
          ∙ append_assoc (ours v (entry w left)) (ours v rest.0) (entry v rest.1)
          ∙ ap (λ env. ours v (entry w left) ++ env) (ours-restore_loop v (without w left) envp)
          ∙ entry-without v w left)
]

abbrev behind : Saved → List Bytes
behind left = entry insert_libraries left ++ (entry flat_namespace left ++ entry trace_log left)

ours-behind : (v : Var) (left : Saved) → ours v (behind left) ≡ entry v left
ours-behind v left =
    ours-append v (entry insert_libraries left) (entry flat_namespace left ++ entry trace_log left)
    ∙ ap (λ env. ours v (entry insert_libraries left) ++ env)
        (ours-append v (entry flat_namespace left) (entry trace_log left))
    ∙ rw
        (
          ours-entry v insert_libraries left.libraries,
          ours-entry v flat_namespace left.namespace,
          ours-entry v trace_log left.log,
        )
        (which v)
  where
    which :
        (v : Var)
        → (if same v insert_libraries then entry insert_libraries left else [])
            ++ ((if same v flat_namespace then entry flat_namespace left else [])
                ++ (if same v trace_log then entry trace_log left else []))
          ≡ entry v left
    which insert_libraries = append-nil (entry insert_libraries left)
    which flat_namespace = append-nil (entry flat_namespace left)
    which trace_log = refl

-- An entry is of its variable, so it is none of the others.
var_of-entry : (w : Var) (value : Bytes) → var_of (var_name w ++ b'=' ∷ value) ≡ some w
unfolding var_of strbeginswith
var_of-entry insert_libraries value = refl
var_of-entry flat_namespace value = refl
var_of-entry trace_log value = refl

others-entry :
    (w : Var) (o : Option Bytes) (env : List Bytes)
    → others (emit (alloc_env (var_name w) o) ++ env) ≡ others env
others-entry w none env = refl
others-entry w (some value) env = rw (var_of-entry w value) refl

others-restore_loop :
    (left : Saved) (envp rest : List Bytes)
    → others rest ≡ []
    → others ((restore_loop left envp).0 ++ rest) ≡ others envp
unfolding restore_loop
others-restore_loop left [] rest h = h
others-restore_loop left (s ∷ envp) rest h = elim (Option-cases (var_of s)) [
  | inl e ↦ rw (restore_loop, e) (rw e (ap (λ env. s ∷ env) (others-restore_loop left envp rest h)))
  | inr (w, e) ↦
      rw (restore_loop, e)
        (ap others (append_assoc (entry w left) (restore_loop (without w left) envp).0 rest)
          ∙ others-entry w (value_of w left) ((restore_loop (without w left) envp).0 ++ rest)
          ∙ others-restore_loop (without w left) envp rest h)
]

others-behind : (left : Saved) → others (behind left) ≡ []
others-behind left =
    others-entry insert_libraries left.libraries (entry flat_namespace left ++ entry trace_log left)
    ∙ others-entry flat_namespace left.namespace (entry trace_log left)
    ∙ ap others (sym (append-nil (entry trace_log left)))
    ∙ others-entry trace_log left.log []

length-entry : (v : Var) (o : Option Bytes) → length (emit (alloc_env (var_name v) o)) ≤ 1
length-entry v none = omega arith
length-entry v (some value) = omega arith

length-restore_loop :
    (left : Saved) (envp : List Bytes) → length (restore_loop left envp).0 ≤ length envp
unfolding restore_loop
length-restore_loop left [] = omega arith
length-restore_loop left (s ∷ envp) = elim (Option-cases (var_of s)) [
  | inl e ↦ rw (restore_loop, e) (omega (arith, length-restore_loop left envp))
  | inr (w, e) ↦
      rw (restore_loop, e)
        (omega (
          arith,
          length-restore_loop (without w left) envp,
          length-entry w (value_of w left),
          length-append (entry w left) (restore_loop (without w left) envp).0,
        ))
]

-- The environment of a program that is run has each of the three variables once, with the value that
-- it had when the library was loaded, or not at all if it had none; the other strings are there, in
-- their order; and the copy, with the null pointer at its end, fits into the memory for five more
-- than there were.
pub restore_env-restored :
    (saved : Saved) (envp : List Bytes)
    → ((v : Var) → ours v (restore_env saved envp) ≡ entry v saved)
      × (others (restore_env saved envp) ≡ others envp)
      × (suc (length (restore_env saved envp)) ≤ length envp + 5)
unfolding restore_env
restore_env-restored saved envp =
    let (copied, left) = restore_loop saved envp in
    (
      λ v.
          ours-append v copied (behind left)
          ∙ ap (λ env. ours v copied ++ env) (ours-behind v left)
          ∙ ours-restore_loop v saved envp,
      others-restore_loop saved envp (behind left) (others-behind left),
      omega (
        arith,
        length-restore_loop saved envp,
        length-append copied (behind left),
        length-append (entry insert_libraries left)
            (entry flat_namespace left ++ entry trace_log left),
        length-append (entry flat_namespace left) (entry trace_log left),
        length-entry insert_libraries left.libraries,
        length-entry flat_namespace left.namespace,
        length-entry trace_log left.log,
      ),
    )
