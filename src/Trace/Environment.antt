-- ===== src/Trace/Environment.antt =====
-- The environment of a program that a traced process runs: `__darwintrace_copy_env`,
-- `__darwintrace_alloc_env` and `__darwintrace_restore_env` of src/darwintracelib1.0/darwintrace.c.
pub mod Entries
pub mod Restored
use mac_ports_fork.CString.{Bytes}
use mac_ports_fork.Prelude.{
  List, [], ◌∷◌, ◌++◌, Option, none, some, Bool, true, false, if◌then◌else◌,
}
use mac_ports_fork.Trace.Rules.{strbeginswith}

-- The variables that are kept: DYLD_INSERT_LIBRARIES, DYLD_FORCE_FLAT_NAMESPACE, DARWINTRACE_LOG.
pub data Var : Type 0 where
  insert_libraries flat_namespace trace_log : Var

abbrev pub var_name : Var → Bytes
var_name insert_libraries =
    b'D' ∷ b'Y' ∷ b'L' ∷ b'D' ∷ b'_' ∷ b'I' ∷ b'N' ∷ b'S' ∷ b'E' ∷ b'R' ∷ b'T' ∷ b'_' ∷ b'L' ∷ b'I'
    ∷ b'B' ∷ b'R' ∷ b'A' ∷ b'R' ∷ b'I' ∷ b'E' ∷ b'S' ∷ []
var_name flat_namespace =
    b'D' ∷ b'Y' ∷ b'L' ∷ b'D' ∷ b'_' ∷ b'F' ∷ b'O' ∷ b'R' ∷ b'C' ∷ b'E' ∷ b'_' ∷ b'F' ∷ b'L' ∷ b'A'
    ∷ b'T' ∷ b'_' ∷ b'N' ∷ b'A' ∷ b'M' ∷ b'E' ∷ b'S' ∷ b'P' ∷ b'A' ∷ b'C' ∷ b'E' ∷ []
var_name trace_log =
    b'D' ∷ b'A' ∷ b'R' ∷ b'W' ∷ b'I' ∷ b'N' ∷ b'T' ∷ b'R' ∷ b'A' ∷ b'C' ∷ b'E' ∷ b'_' ∷ b'L' ∷ b'O'
    ∷ b'G' ∷ []

-- The values that the variables had when the library was loaded.
pub record Saved : Type 0 where
  pub libraries : Option Bytes
  pub namespace : Option Bytes
  pub log : Option Bytes

abbrev pub copy_env : (Bytes → Option Bytes) → Saved
copy_env getenv = record {
  libraries = getenv (var_name insert_libraries);
  namespace = getenv (var_name flat_namespace);
  log = getenv (var_name trace_log);
}

abbrev pub value_of : Var → Saved → Option Bytes
value_of insert_libraries saved = saved.libraries
value_of flat_namespace saved = saved.namespace
value_of trace_log saved = saved.log

-- A pointer that is set to NULL.
abbrev pub without : Var → Saved → Saved
without insert_libraries saved = record saved { libraries = none }
without flat_namespace saved = record saved { namespace = none }
without trace_log saved = record saved { log = none }

abbrev pub alloc_env : Bytes → Option Bytes → Option Bytes
alloc_env name none = none
alloc_env name (some value) = some (name ++ b'=' ∷ value)

-- A string of the environment, unless the pointer is NULL.
abbrev pub emit : Option Bytes → List Bytes
emit none = []
emit (some s) = s ∷ []

abbrev pub entry : Var → Saved → List Bytes
entry v saved = emit (alloc_env (var_name v) (value_of v saved))

abbrev pub is_var : Var → Bytes → Bool
is_var v s = strbeginswith s (var_name v ++ b'=' ∷ [])

-- The tests of the loop, in their order.
unfoldable pub var_of : Bytes → Option Var
unfolding strbeginswith
var_of s =
    if is_var insert_libraries s
    then some insert_libraries
    else if is_var flat_namespace s
    then some flat_namespace
    else if is_var trace_log s
    then some trace_log
    else none

-- The loop over the environment: what it copies, and the pointers that are left. A saved variable
-- goes in place of the first that has its name, and further ones of that name are left out.
unfoldable pub restore_loop : Saved → List Bytes → List Bytes × Saved
unfolding var_of
restore_loop left [] = ([], left)
restore_loop left (s ∷ envp) = elim (var_of s) [
  | none ↦ let (copied, left') = restore_loop left envp in (s ∷ copied, left')
  | some v ↦
      let (copied, left') = restore_loop (without v left) envp in (entry v left ++ copied, left')
]

unfoldable pub restore_env : Saved → List Bytes → List Bytes
unfolding restore_loop
restore_env saved envp =
    let (copied, left) = restore_loop saved envp in
    copied ++ (entry insert_libraries left ++ (entry flat_namespace left ++ entry trace_log left))
