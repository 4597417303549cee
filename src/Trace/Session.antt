-- ===== src/Trace/Session.antt =====
-- Both ends of the trace socket together: the filemap that src/pextlib1.0/tracelib.c makes of its
-- settings, and the rulings of a process of src/darwintracelib1.0/darwintrace.c that gets it.
use mac_ports_fork.CString.{Bytes}
use mac_ports_fork.Prelude.{
  ◌>>=◌, ℕ, zero, suc, ◌<◌, ◌≡◌, refl, ap, ◌∙◌, List, [], ◌∷◌, ◌++◌, Option, none, some, arith,
  length, length-append, take, All, All-append,
}
use mac_ports_fork.Trace.CleanPath.{cleanup_path}
use mac_ports_fork.Trace.Client.{
  Process, ask_for_filemap, ask_for_dependency, absolute_path, is_directory, is_in_sandbox,
}
use mac_ports_fork.Trace.Client.Follows.{is_in_sandbox-decide}
use mac_ports_fork.Trace.Rules.{rules_bytes, AreRules, Ruling, decide}
use mac_ports_fork.Trace.Server.{
  Settings, Tracelib, set_sandbox, fence, send_file_map, bin, sbin, dev, usr, library,
  system_library, gcc, perl, sdks, sdk_root, sandbox_block,
}
use mac_ports_fork.Trace.Server.Sends.{system_rules, fence_rules, build_filemap-fence}
use mac_ports_fork.Trace.Server.Words.{join, IsFree, strings-sandbox_block}
use mac_ports_fork.Trace.Strings.{IsText, IsWord, is_text-IsText}

-- A process asks the server for its filemap and rules on a path.
abbrev pub rules_on : Settings → Tracelib → Process → Bytes → Option ℕ → Option Ruling
rules_on settings tl proc path size = send_file_map settings tl >>= λ (tl', out).
    is_in_sandbox (ask_for_filemap (some out) proc) path size

-- Only the filemap changes.
ask_for_filemap-path :
    (m : Option Bytes) (proc : Process) (path : Bytes)
    → absolute_path (ask_for_filemap m proc) path ≡ absolute_path proc path
unfolding ask_for_filemap absolute_path
ask_for_filemap-path none proc path = refl
ask_for_filemap-path (some []) proc path = refl
ask_for_filemap-path (some (c ∷ s)) proc path = refl

ask_for_filemap-asked :
    (m : Option Bytes) (proc : Process)
    → ask_for_dependency (ask_for_filemap m proc) ≡ ask_for_dependency proc
unfolding ask_for_filemap ask_for_dependency is_directory
ask_for_filemap-asked none proc = refl
ask_for_filemap-asked (some []) proc = refl
ask_for_filemap-asked (some (c ∷ s)) proc = refl

received :
    (s : Bytes) (proc : Process)
    → 0 < length s
    → (ask_for_filemap (some s) proc).filemap ≡ some (s ++ 0 ∷ [])
unfolding ask_for_filemap
received [] proc h = absurd (omega arith)
received (c ∷ s) proc h = refl

take-IsText : (n : ℕ) (s : Bytes) → IsText s → IsText (take n s)
take-IsText zero s h = tt
take-IsText (suc n) [] h = tt
take-IsText (suc n) (c ∷ s) h = (h.0, take-IsText n s h.1)

sdk_root-IsWord :
    (developer_dir sdk : Bytes)
    → IsWord developer_dir
    → IsText sdk
    → IsWord (sdk_root developer_dir sdk)
sdk_root-IsWord [] sdk h k = elim h [ ]
sdk_root-IsWord (c ∷ s) sdk h k = (
  h.0,
  take-IsText 258 (s ++ (sdks ++ sdk)) (
      All-append (λ c. 0 < c) s (sdks ++ sdk) h.1
        (All-append (λ c. 0 < c) sdks sdk (is_text-IsText sdks refl) k)),
)

system_rules-AreRules :
    (developer_dir sdk : Bytes)
    → IsWord developer_dir
    → IsText sdk
    → AreRules (system_rules developer_dir sdk)
system_rules-AreRules developer_dir [] h k = (
  is_text-IsText usr refl,
  (is_text-IsText system_library refl, (is_text-IsText library refl, (h, tt))),
)
system_rules-AreRules developer_dir (c ∷ sdk) h k = (
  is_text-IsText (usr ++ bin) refl,
  (
    is_text-IsText (usr ++ sbin) refl,
    (
      is_text-IsText (usr ++ gcc) refl,
      (
        is_text-IsText (system_library ++ perl) refl,
        (((omega arith, tt), sdk_root-IsWord developer_dir (c ∷ sdk) h k), tt),
      ),
    ),
  ),
)

fence_rules-AreRules :
    (paths : List Bytes) (prefix developer_dir sdk : Bytes)
    → All IsWord paths
    → IsWord prefix
    → IsWord developer_dir
    → IsText sdk
    → AreRules (fence_rules paths prefix developer_dir sdk)
fence_rules-AreRules [] prefix developer_dir sdk h p d k = (
  is_text-IsText bin refl,
  (
    is_text-IsText sbin refl,
    (is_text-IsText dev refl, (p, system_rules-AreRules developer_dir sdk d k)),
  ),
)
fence_rules-AreRules (path ∷ paths) prefix developer_dir sdk h p d k =
    (h.0, fence_rules-AreRules paths prefix developer_dir sdk h.1 p d k)

-- Some rules are there: those for the programs.
fence_rules-length :
    (paths : List Bytes) (prefix developer_dir sdk : Bytes)
    → 0 < length (rules_bytes (fence_rules paths prefix developer_dir sdk))
fence_rules-length [] prefix developer_dir sdk = omega arith
fence_rules-length (path ∷ paths) prefix developer_dir sdk =
    let rest = rules_bytes (fence_rules paths prefix developer_dir sdk) in
    omega (arith, length-append (path ++ 0 ∷ 0 ∷ 0 ∷ []) rest, length-append path (0 ∷ 0 ∷ 0 ∷ []))

-- For a sandbox of paths without colons and backslashes, once the fence is enabled, if prefix and
-- developer_dir are set and the rules leave room in the buffer of 1024 bytes: whatever the server's
-- state was before, a process that asks for its filemap rules on a path by the list that the server
-- means: the paths of the sandbox are allowed, then the programs and devices, a file of MacPorts is
-- asked for, and the system is allowed or moved into the SDK. All else is denied.
pub rules_on-fence :
    (settings : Settings) (tl : Tracelib) (w₀ w₁ : Bytes) (paths : List Bytes)
    (prefix developer_dir : Bytes) (proc : Process) (path p : Bytes) (size : Option ℕ)
    → All IsWord paths
    → All (IsFree b':') paths
    → All (IsFree b'\\') paths
    → settings.prefix ≡ some prefix
    → settings.developer_dir ≡ some developer_dir
    → IsWord prefix
    → IsWord developer_dir
    → IsText settings.sdk
    → length (rules_bytes (fence_rules paths prefix developer_dir settings.sdk)) < 1024
    → absolute_path proc path ≡ some p
    → rules_on settings (fence (set_sandbox (w₀ ∷ w₁ ∷ join b':' paths ∷ []) tl).1).1 proc path size
      ≡ decide size
          (ask_for_dependency proc)
          (cleanup_path p)
          (fence_rules paths prefix developer_dir settings.sdk)
unfolding send_file_map fence set_sandbox
rules_on-fence settings tl w₀ w₁ paths prefix developer_dir proc path p size h f g e d hp hd hs room
      a =
    let rules = fence_rules paths prefix developer_dir settings.sdk in
    let proc' = ask_for_filemap (some (rules_bytes rules)) proc in
    let made =
      build_filemap-fence settings paths (sandbox_block (join b':' paths)) prefix developer_dir
        (strings-sandbox_block paths h f g) e d room in
    rw made (
      is_in_sandbox-decide proc' size path p rules
        (fence_rules-AreRules paths prefix developer_dir settings.sdk h hp hd hs)
        (received (rules_bytes rules) proc
          (fence_rules-length paths prefix developer_dir settings.sdk))
        (ask_for_filemap-path (some (rules_bytes rules)) proc path ∙ a)
      ∙ ap (λ q. decide size q (cleanup_path p) rules)
          (ask_for_filemap-asked (some (rules_bytes rules)) proc))
