-- ===== src/Trace/Calls/Refusals.antt =====
-- What src/darwintracelib1.0/darwintrace.c does about a path that the rules deny.
use mac_ports_fork.CString.{Bytes}
use mac_ports_fork.Prelude.{
  ℕ, ◌<◌, ◌≡◌, refl, ap, ◌∙◌, List, [], ◌∷◌, ◌++◌, Option, none, some, Bool, true, false, ◌==◌,
  arith, length, length-append, ltb, get_or, take_all, if◌then◌else◌, append-nil,
}
use mac_ports_fork.Trace.Calls.{
  Errno, eacces, enoent, made, refused, report, rule, guard, log_op, violation, lstat, mkdir, stat,
  open_call,
}
use mac_ports_fork.Trace.CleanPath.{cleanup_path}
use mac_ports_fork.Trace.CleanPath.Bounds.{length-cleanup_path}
use mac_ports_fork.Trace.Client.{
  Process, ask_for_dependency, is_directory, absolute_path, is_in_sandbox,
}
use mac_ports_fork.Trace.Client.Follows.{is_in_sandbox-decide}
use mac_ports_fork.Trace.Rules.{Rule, AreRules, rules_bytes, denied, decide}
use mac_ports_fork.Trace.Strings.{IsText}

-- The message about a path, and that there is one if no rule was about it.
abbrev pub notice : Bool → Bytes → List Bytes
notice true path = (violation ++ b'\t' ∷ (cleanup_path path ++ 0 ∷ [])) ∷ []
notice false path = []

log_op-absolute :
    (proc : Process) (path : Bytes)
    → IsText path
    → (get_or path 0 0 == b'/') ≡ true
    → length path < 1000
    → log_op proc false violation path ≡ some (violation ++ b'\t' ∷ (cleanup_path path ++ 0 ∷ []))
unfolding log_op
log_op-absolute proc path t a h =
    let fits : ltb (length (violation ++ b'\t' ∷ cleanup_path path)) 1024 ≡ true =
      ground (
        arith,
        h,
        length-cleanup_path path t,
        length-append violation (b'\t' ∷ cleanup_path path),
      ) in
    rw (a, take_all 1023 path (omega (arith, h)), fits) refl

rule-denied :
    (proc : Process) (path : Bytes) (size : Option ℕ) (r : Bool)
    → IsText path
    → (get_or path 0 0 == b'/') ≡ true
    → length path < 1000
    → is_in_sandbox proc path size ≡ some (denied r)
    → rule proc path size ≡ some (notice r path, denied r)
unfolding report
rule-denied proc path size true t a h e = rw (e, log_op-absolute proc path t a h) refl
rule-denied proc path size false t a h e = rw e refl

-- With the rules that the process has.
module _ (proc : Process) (path : Bytes) (rs : List Rule) (r : Bool) (w : AreRules rs)
    (f : proc.filemap ≡ some (rules_bytes rs ++ 0 ∷ [])) (t : IsText path)
    (a : (get_or path 0 0 == b'/') ≡ true) (h : length path < 1000) where
  rule-refuses :
      (size : Option ℕ)
      → decide size (ask_for_dependency proc) (cleanup_path path) rs ≡ some (denied r)
      → rule proc path size ≡ some (notice r path, denied r)
  rule-refuses size d =
      let here : absolute_path proc path ≡ some path = unfold absolute_path in rw a refl in
      rule-denied proc path size r t a h (is_in_sandbox-decide proc size path path rs w f here ∙ d)

  guard-refuses :
      (errno : Errno) (size : Option ℕ)
      → decide size (ask_for_dependency proc) (cleanup_path path) rs ≡ some (denied r)
      → guard errno proc path size ≡ some (notice r path, refused errno)
  guard-refuses errno size d =
      rw (rule-refuses size d) (ap (λ s. some (s, refused errno)) (append-nil (notice r path)))

  -- Where nothing or a directory is, at a path from the root of less than 1000 bytes that the rules
  -- deny, `mkdir` fails with EACCES if `lstat` reports ENOENT; else the call is made, for the kernel
  -- to fail. Without a rule about the path, the server gets one notice.
  pub mkdir-denied :
      is_directory proc path ≡ true
      → decide none (ask_for_dependency proc) (cleanup_path path) rs ≡ some (denied r)
      → mkdir proc path
        ≡ some (notice r path, if proc.missing path then refused eacces else made (path ∷ []))
  unfolding mkdir lstat
  mkdir-denied k d =
      let call = if proc.missing path then refused eacces else made (path ∷ []) in
      rw (guard-refuses eacces none d, k) (ap (λ s. some (s, call)) (append-nil (notice r path)))

  -- A file that is no directory, at a path from the root of less than 1000 bytes that the rules deny,
  -- is opened all the same if it is not to be created: the `stat` by which `open` looks for it is
  -- the library's own, and says that it is not there.
  pub open_call-denied :
      is_directory proc path ≡ false
      → decide (some 260) (ask_for_dependency proc) (cleanup_path path) rs ≡ some (denied r)
      → open_call proc false path ≡ some (notice r path, made (path ∷ []))
  unfolding open_call stat
  open_call-denied k d =
      rw (k, guard-refuses enoent (some 260) d)
        (ap (λ s. some (s, made (path ∷ []))) (append-nil (notice r path)))
