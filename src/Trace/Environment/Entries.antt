-- ===== src/Trace/Environment/Entries.antt =====
-- The strings of an environment by variable, for src/darwintracelib1.0/darwintrace.c.
use mac_ports_fork.CString.{Bytes}
use mac_ports_fork.Prelude.{
  ◌≡◌, refl, ap, ◌∙◌, List, [], ◌∷◌, ◌++◌, Option, none, some, Bool, true, false, append-nil,
  if◌then◌else◌,
}
use mac_ports_fork.Trace.Environment.{
  Var, insert_libraries, flat_namespace, trace_log, Saved, value_of, without, emit, entry,
  alloc_env, var_name, is_var, var_of,
}
use mac_ports_fork.Trace.Rules.{strbeginswith}

-- The strings of a variable, and those of none of the three.
abbrev pub ours : Var → List Bytes → List Bytes
ours v [] = []
ours v (s ∷ env) = if is_var v s then s ∷ ours v env else ours v env

abbrev pub kept : Option Var → Bytes → List Bytes → List Bytes
kept none s env = s ∷ env
kept (some v) s env = env

abbrev pub others : List Bytes → List Bytes
others [] = []
others (s ∷ env) = kept (var_of s) s (others env)

pub ours-append : (v : Var) (xs ys : List Bytes) → ours v (xs ++ ys) ≡ ours v xs ++ ours v ys
ours-append v [] ys = refl
ours-append v (s ∷ xs) ys = either (is_var v s) (ours-append v xs ys)
  where
    either :
        (b : Bool)
        → ours v (xs ++ ys) ≡ ours v xs ++ ours v ys
        → (if b then s ∷ ours v (xs ++ ys) else ours v (xs ++ ys))
          ≡ (if b then s ∷ ours v xs else ours v xs) ++ ours v ys
    either true e = ap (λ env. s ∷ env) e
    either false e = e

abbrev pub same : Var → Var → Bool
same insert_libraries insert_libraries = true
same flat_namespace flat_namespace = true
same trace_log trace_log = true
same _ _ = false

pub is_var-entry : (v w : Var) (value : Bytes) → is_var v (var_name w ++ b'=' ∷ value) ≡ same v w
unfolding strbeginswith
is_var-entry insert_libraries insert_libraries value = refl
is_var-entry insert_libraries flat_namespace value = refl
is_var-entry insert_libraries trace_log value = refl
is_var-entry flat_namespace insert_libraries value = refl
is_var-entry flat_namespace flat_namespace value = refl
is_var-entry flat_namespace trace_log value = refl
is_var-entry trace_log insert_libraries value = refl
is_var-entry trace_log flat_namespace value = refl
is_var-entry trace_log trace_log value = refl

pub ours-entry :
    (v w : Var) (o : Option Bytes)
    → ours v (emit (alloc_env (var_name w) o))
      ≡ (if same v w then emit (alloc_env (var_name w) o) else [])
ours-entry v w none = either (same v w)
  where
    either : (b : Bool) → ◌≡◌ {A = List Bytes} [] (if b then [] else [])
    either true = refl
    either false = refl
ours-entry v w (some value) = rw (is_var-entry v w value) refl

pub entry-without :
    (v w : Var) (left : Saved) → ours v (entry w left) ++ entry v (without w left) ≡ entry v left
entry-without v w left =
    ap (λ env. env ++ entry v (without w left)) (ours-entry v w (value_of w left)) ∙ moved v w
  where
    moved :
        (v w : Var)
        → (if same v w then entry w left else []) ++ entry v (without w left) ≡ entry v left
    moved insert_libraries insert_libraries = append-nil (entry insert_libraries left)
    moved flat_namespace flat_namespace = append-nil (entry flat_namespace left)
    moved trace_log trace_log = append-nil (entry trace_log left)
    moved insert_libraries flat_namespace = refl
    moved insert_libraries trace_log = refl
    moved flat_namespace insert_libraries = refl
    moved flat_namespace trace_log = refl
    moved trace_log insert_libraries = refl
    moved trace_log flat_namespace = refl
