-- ===== src/Tests/TraceTests.antt =====
-- The theorems at concrete inputs for src/darwintracelib1.0/darwintrace.c and
-- src/pextlib1.0/tracelib.c.
use mac_ports_fork.CString.{Bytes}
use mac_ports_fork.Prelude.{
  ◌+◌, ◌≤◌, ◌≡◌, ◌≢◌, ◌↔◌, refl, List, [], ◌∷◌, ◌++◌, none, some, Bool, true, false, arith, length,
  get_or, suc,
}
use mac_ports_fork.Filemap.FilePath.{steps}
use mac_ports_fork.Trace.Calls.{made, open_call}
use mac_ports_fork.Trace.Calls.Refusals.{notice, open_call-denied}
use mac_ports_fork.Trace.CleanPath.{strip_rsrc, cleanup_path}
use mac_ports_fork.Trace.CleanPath.SamePath.{NoDoubleSlash, steps-cleanup_path}
use mac_ports_fork.Trace.Client.{
  Process, Kind, other, is_in_sandbox, absolute_path, is_directory, ask_for_dependency,
}
use mac_ports_fork.Trace.Client.Follows.{is_in_sandbox-decide}
use mac_ports_fork.Trace.Client.Returns.{Returns, is_in_sandbox-Returns}
use mac_ports_fork.Trace.Environment.{Saved, restore_env, entry, Var, var_name, trace_log}
use mac_ports_fork.Trace.Environment.Entries.{ours, others}
use mac_ports_fork.Trace.Environment.Restored.{restore_env-restored}
use mac_ports_fork.Trace.Messages.{process_line, recorded}
use mac_ports_fork.Trace.Messages.Delivered.{
  violates, runs, on_socket, act_all, kept_open, process_line-act_all,
}
use mac_ports_fork.Trace.Rules.{Rule, allow, ask, rules_bytes, AreRules, decide}
use mac_ports_fork.Trace.Server.{Settings, Tracelib, fence, set_sandbox, set_deps, dep_check}
use mac_ports_fork.Trace.Server.Ports.{dep_check-set_deps}
use mac_ports_fork.Trace.Server.Sends.{fence_rules}
use mac_ports_fork.Trace.Server.Words.{join}
use mac_ports_fork.Trace.Session.{rules_on, rules_on-fence}
use mac_ports_fork.Trace.Strings.{is_text-IsText}
use mathlib.Core.List.{Mem}

-- "/t//a", "/t/a", "/w", "/o", "/t".
abbrev doubled : Bytes
doubled = b'/' ∷ b't' ∷ b'/' ∷ b'/' ∷ b'a' ∷ []

abbrev temp_a : Bytes
temp_a = b'/' ∷ b't' ∷ b'/' ∷ b'a' ∷ []

abbrev work : Bytes
work = b'/' ∷ b'w' ∷ []

abbrev opt : Bytes
opt = b'/' ∷ b'o' ∷ []

abbrev temp : Bytes
temp = b'/' ∷ b't' ∷ []

abbrev rules : List Rule
rules = allow work ∷ ask opt ∷ []

rules-AreRules : AreRules rules
rules-AreRules = (is_text-IsText work refl, (is_text-IsText opt refl, tt))

abbrev traced : Kind → Process
traced kind = record {
  filemap = some (rules_bytes rules ++ 0 ∷ []);
  cwd = work;
  kind = λ path. kind;
  missing = λ path. true;
  server_allows = λ path. true;
}

steps-cleanup_path_example :
    NoDoubleSlash (cleanup_path doubled)
    × (get_or (cleanup_path doubled) 0 0 ≡ get_or (strip_rsrc doubled) 0 0)
    × (steps (cleanup_path doubled) ≡ steps (strip_rsrc doubled))
steps-cleanup_path_example = steps-cleanup_path doubled (is_text-IsText doubled refl)

is_in_sandbox-decide_example :
    is_in_sandbox (traced other) opt none
    ≡ decide none (ask_for_dependency (traced other)) (cleanup_path opt) rules
is_in_sandbox-decide_example =
    is_in_sandbox-decide (traced other) none opt opt rules rules-AreRules refl
      (unfold absolute_path in refl)

is_in_sandbox-Returns_example : Returns (is_in_sandbox (traced other) opt none)
is_in_sandbox-Returns_example =
    is_in_sandbox-Returns (traced other) none opt opt rules rules-AreRules refl
      (unfold absolute_path in refl) (is_text-IsText opt refl) (omega arith) tt

open_call-denied_example :
    open_call (traced other) false temp ≡ some (notice true temp, made (temp ∷ []))
open_call-denied_example =
    open_call-denied (traced other) temp rules true rules-AreRules refl (is_text-IsText temp refl)
      refl (omega arith) (unfold is_directory in refl) (unfold decide cleanup_path in refl)

abbrev settings : Settings
settings = record { prefix = some opt; developer_dir = some temp; sdk = [] }

abbrev fresh : Tracelib
fresh = record {
  name = none;
  sandbox = none;
  filemap = none;
  depends = none;
  listening = false;
  enable_fence = false;
  cleanuping = false;
}

rules_on-fence_example :
    rules_on settings
      (fence (set_sandbox ([] ∷ [] ∷ join b':' (work ∷ []) ∷ []) fresh).1).1
      (traced other)
      temp
      none
    ≡ decide none
        (ask_for_dependency (traced other))
        (cleanup_path temp)
        (fence_rules (work ∷ []) opt temp [])
rules_on-fence_example =
    rules_on-fence settings fresh [] [] (work ∷ []) opt temp (traced other) temp temp none
      (is_text-IsText work refl, tt) ((refl, (refl, tt)), tt) ((refl, (refl, tt)), tt) refl refl
      (is_text-IsText opt refl) (is_text-IsText temp refl) tt (omega arith)
      (unfold absolute_path in refl)

-- "zlib", by its first letter.
abbrev zlib : Bytes
zlib = b'z' ∷ []

dep_check-set_deps_example :
    (b : Bool) × (dep_check (set_deps ([] ∷ [] ∷ join b' ' (zlib ∷ work ∷ []) ∷ []) fresh).1 zlib
      ≡ some b)
    × ((b ≡ true) ↔ ((zlib ≢ b'0' ∷ []) × Mem zlib (zlib ∷ work ∷ [])))
dep_check-set_deps_example =
    dep_check-set_deps fresh [] [] zlib (zlib ∷ work ∷ [])
      (is_text-IsText zlib refl, (is_text-IsText work refl, tt))
      ((refl, tt), ((refl, (refl, tt)), tt))

abbrev saved : Saved
saved = record { libraries = some work; namespace = none; log = some temp }

-- "A=", "DARWINTRACE_LOG=".
abbrev environment : List Bytes
environment = (b'A' ∷ b'=' ∷ []) ∷ (var_name trace_log ++ b'=' ∷ []) ∷ []

restore_env-restored_example :
    ((v : Var) → ours v (restore_env saved environment) ≡ entry v saved)
    × (others (restore_env saved environment) ≡ others environment)
    × (suc (length (restore_env saved environment)) ≤ length environment + 5)
restore_env-restored_example = restore_env-restored saved environment

process_line-act_all_example :
    process_line settings
      (λ path. zlib)
      (some (on_socket (violates temp ∷ runs work ∷ [])))
      []
      fresh
    ≡ kept_open [] (act_all settings (λ path. zlib) (violates temp ∷ runs work ∷ []) fresh)
process_line-act_all_example =
    process_line-act_all settings (λ path. zlib) (violates temp) (runs work ∷ []) [] fresh
      (is_text-IsText temp refl, (is_text-IsText work refl, tt)) (omega arith)

-- The violation that a refused call sends is the one that is recorded.
recorded_violation :
    process_line settings (λ path. zlib) (some (get_or (notice true doubled) 0 [])) [] fresh
    ≡ some (true, fresh, recorded temp_a ∷ [], [])
unfolding process_line cleanup_path
recorded_violation = refl
