-- ===== src/Trace/Server/Sends.antt =====
-- The filemap that `send_file_map` of src/pextlib1.0/tracelib.c makes, as rules.
use mac_ports_fork.CString.{Bytes}
use mac_ports_fork.Prelude.{
  ◌>>=◌, ℕ, ◌+◌, ◌-◌, ◌<◌, ◌≤◌, ◌≡◌, refl, sym, ap, ◌∙◌, List, [], ◌∷◌, ◌++◌, map, Option, some,
  true, false, arith, length, append_assoc, append-nil, length-append, leb, ltb,
}
use mac_ports_fork.Trace.Rules.{Rule, allow, redirect, ask, rule_bytes, rules_bytes}
use mac_ports_fork.Trace.Server.{
  Settings, append_allow, append_all, append_var, append_root, append_system, build_filemap, bin,
  sbin, dev, usr, library, system_library, gcc, perl, sdk_root,
}
use mac_ports_fork.Trace.Strings.{strings}

-- The rules for the system: all of it, or some programs of it and the rest from the SDK.
abbrev pub system_rules : Bytes → Bytes → List Rule
system_rules developer_dir [] =
    allow usr ∷ allow system_library ∷ allow library ∷ allow developer_dir ∷ []
system_rules developer_dir (c ∷ sdk) =
    allow (usr ++ bin)
    ∷ allow (usr ++ sbin)
    ∷ allow (usr ++ gcc)
    ∷ allow (system_library ++ perl)
    ∷ redirect (b'/' ∷ []) (sdk_root developer_dir (c ∷ sdk))
    ∷ []

abbrev pub programs : List Bytes
programs = bin ∷ sbin ∷ dev ∷ []

-- With the fence: the sandbox is allowed, the files of ports are asked for.
abbrev pub fence_rules : List Bytes → Bytes → Bytes → Bytes → List Rule
fence_rules paths prefix developer_dir sdk =
    map allow paths ++ (map allow programs ++ ask prefix ∷ system_rules developer_dir sdk)

rules_bytes-append : (rs qs : List Rule) → rules_bytes (rs ++ qs) ≡ rules_bytes rs ++ rules_bytes qs
rules_bytes-append [] qs = refl
rules_bytes-append (r ∷ rs) qs =
    ap (λ s. rule_bytes r ++ s) (rules_bytes-append rs qs)
    ∙ sym (append_assoc (rule_bytes r) (rules_bytes rs) (rules_bytes qs))

-- The bytes so far, with the room that they leave.
abbrev full : Bytes → Bytes × ℕ
full out = (out, 1024 - length out)

append_allow-fits :
    (path out : Bytes) (res : ℕ)
    → length out + (length path + 3) ≤ 1024
    → append_allow path res (full out) ≡ some (full (out ++ (path ++ 0 ∷ res ∷ 0 ∷ [])))
unfolding append_allow
append_allow-fits path out res h =
    let long : length (out ++ (path ++ 0 ∷ res ∷ 0 ∷ [])) ≡ length out + (length path + 3) = omega (
      arith,
      length-append out (path ++ 0 ∷ res ∷ 0 ∷ []),
      length-append path (0 ∷ res ∷ 0 ∷ []),
    ) in
    let fits : leb (length path + 3) (1024 - length out) ≡ true = ground (arith, h) in
    let left : 1024 - length out - (length path + 3)
        ≡ 1024 - length (out ++ (path ++ 0 ∷ res ∷ 0 ∷ [])) =
      omega (arith, long) in
    rw (append_allow, fits) (ap (λ n. some (out ++ (path ++ 0 ∷ res ∷ 0 ∷ []), n)) left)

append_all-fits :
    (paths : List Bytes) (out : Bytes)
    → length out + length (rules_bytes (map allow paths)) ≤ 1024
    → append_all paths (full out) ≡ some (full (out ++ rules_bytes (map allow paths)))
unfolding append_all
append_all-fits [] out h = ap (λ s. some (full s)) (sym (append-nil out))
append_all-fits (path ∷ paths) out h =
    let rule = path ++ 0 ∷ 0 ∷ 0 ∷ [] in
    let rest = rules_bytes (map allow paths) in
    let sizes : length (rule ++ rest) ≡ length path + 3 + length rest =
      omega (arith, length-append rule rest, length-append path (0 ∷ 0 ∷ 0 ∷ [])) in
    rw (append_all, append_allow-fits path out 0 (omega (arith, sizes)))
      (append_all-fits paths (out ++ rule)
          (omega (arith, sizes, length-append out rule, length-append path (0 ∷ 0 ∷ 0 ∷ [])))
        ∙ ap (λ s. some (full s)) (append_assoc out rule rest))

append_root-fits :
    (root out : Bytes)
    → length out + (length root + 4) < 1024
    → append_root root (full out)
      ≡ some (out ++ rule_bytes (redirect (b'/' ∷ []) root), 1024 - length out - 4)
unfolding append_root
append_root-fits root out h =
    let room : ltb (1024 - length out) 4 ≡ false = ground (arith, h) in
    let fits : ltb (length root) (1024 - length out - 4) ≡ true = ground (arith, h) in
    rw (append_root, room, fits)
      (ap (λ s. some (s, 1024 - length out - 4))
        (append_assoc out (b'/' ∷ 0 ∷ 1 ∷ []) (root ++ 0 ∷ [])))

-- What is left of a pair of a chain: the bytes.
abbrev written : Option (Bytes × ℕ) → Option Bytes
written m = m >>= λ (out, remaining). some out

module _ (developer_dir out : Bytes) where
  -- The paths in front, then one rule more.
  abbrev in_front : List Bytes → Rule → Bytes
  in_front paths r = out ++ rules_bytes (map allow paths ++ r ∷ [])

  in_front-split :
      (paths : List Bytes) (r : Rule)
      → (out ++ rules_bytes (map allow paths)) ++ rule_bytes r ≡ in_front paths r
  in_front-split paths r =
      append_assoc out (rules_bytes (map allow paths)) (rule_bytes r)
      ∙ ap (λ s. out ++ (rules_bytes (map allow paths) ++ s)) (sym (append-nil (rule_bytes r)))
      ∙ ap (λ s. out ++ s) (sym (rules_bytes-append (map allow paths) (r ∷ [])))

  length-in_front :
      (paths : List Bytes) (r : Rule)
      → length (in_front paths r)
        ≡ length out + length (rules_bytes (map allow paths)) + length (rule_bytes r)
  length-in_front paths r =
      ap length (sym (in_front-split paths r))
      ∙ omega (
        arith,
        length-append (out ++ rules_bytes (map allow paths)) (rule_bytes r),
        length-append out (rules_bytes (map allow paths)),
      )

  append_system-fits :
      (sdk : Bytes)
      → length (out ++ rules_bytes (system_rules developer_dir sdk)) < 1024
      → written (append_system (some developer_dir) sdk (full out))
        ≡ some (out ++ rules_bytes (system_rules developer_dir sdk))
  unfolding append_system
  append_system-fits [] h =
      let paths : List Bytes = usr ∷ system_library ∷ library ∷ [] in
      let last = allow developer_dir in
      let out' = out ++ rules_bytes (map allow paths) in
      let sizes = length-in_front paths last in
      let l = length-append out (rules_bytes (map allow paths)) in
      let m = length-append developer_dir (0 ∷ 0 ∷ 0 ∷ []) in
      ap (λ st. written (st >>= append_var (some developer_dir) 0))
        (append_all-fits paths out (omega (arith, sizes, h)))
      ∙ ap written (append_allow-fits developer_dir out' 0 (omega (arith, sizes, h, l, m)))
      ∙ ap some (in_front-split paths last)
  append_system-fits (c ∷ sdk) h =
      let paths : List Bytes =
        (usr ++ bin) ∷ (usr ++ sbin) ∷ (usr ++ gcc) ∷ (system_library ++ perl) ∷ [] in
      let root = sdk_root developer_dir (c ∷ sdk) in
      let last = redirect (b'/' ∷ []) root in
      let out' = out ++ rules_bytes (map allow paths) in
      let sizes = length-in_front paths last in
      let l = length-append out (rules_bytes (map allow paths)) in
      let m = length-append root (0 ∷ []) in
      ap (λ st. written (st >>= append_root root))
        (append_all-fits paths out (omega (arith, sizes, h)))
      ∙ ap written (append_root-fits root out' (omega (arith, sizes, h, l, m)))
      ∙ ap some (in_front-split paths last)

-- The four parts of `fence_rules`, from the left.
fence_bytes :
    (paths : List Bytes) (prefix developer_dir sdk : Bytes)
    → rules_bytes (fence_rules paths prefix developer_dir sdk)
      ≡ ((rules_bytes (map allow paths) ++ rules_bytes (map allow programs))
          ++ rule_bytes (ask prefix))
        ++ rules_bytes (system_rules developer_dir sdk)
fence_bytes paths prefix developer_dir sdk =
    let a = rules_bytes (map allow paths) in
    let b = rules_bytes (map allow programs) in
    let c = rule_bytes (ask prefix) in
    let s = rules_bytes (system_rules developer_dir sdk) in
    rules_bytes-append (map allow paths)
      (map allow programs ++ ask prefix ∷ system_rules developer_dir sdk)
    ∙ sym (append_assoc a b (c ++ s))
    ∙ sym (append_assoc (a ++ b) c s)

-- Where the variables are set and the rules leave room in the buffer, the filemap is the bytes of
-- the rules.
pub build_filemap-fence :
    (settings : Settings) (paths : List Bytes) (block prefix developer_dir : Bytes)
    → strings block ≡ some paths
    → settings.prefix ≡ some prefix
    → settings.developer_dir ≡ some developer_dir
    → length (rules_bytes (fence_rules paths prefix developer_dir settings.sdk)) < 1024
    → build_filemap settings true (some block)
      ≡ some (rules_bytes (fence_rules paths prefix developer_dir settings.sdk))
unfolding build_filemap
build_filemap-fence settings paths block prefix developer_dir e p d h =
    let a = rules_bytes (map allow paths) in
    let b = rules_bytes (map allow programs) in
    let c = rule_bytes (ask prefix) in
    let s = rules_bytes (system_rules developer_dir settings.sdk) in
    let whole = ap length (fence_bytes paths prefix developer_dir settings.sdk) in
    let l₁ = length-append ((a ++ b) ++ c) s in
    let l₂ = length-append (a ++ b) c in
    let l₃ = length-append a b in
    let l₄ = length-append prefix (0 ∷ 2 ∷ 0 ∷ []) in
    let fits : length (((a ++ b) ++ c) ++ s) < 1024 = omega (arith, h, whole) in
    rw (e, p, d, append_all-fits paths [] (omega (arith, fits, l₁, l₂, l₃)))
      (ap
          (λ st. st >>= λ st₂. append_var (some prefix) 2 st₂ >>= λ st₃.
            written (append_system (some developer_dir) settings.sdk st₃))
          (append_all-fits programs a (omega (arith, fits, l₁, l₂, l₃)))
        ∙ ap (λ st. st >>= λ st₃. written (append_system (some developer_dir) settings.sdk st₃))
            (append_allow-fits prefix (a ++ b) 2 (omega (arith, fits, l₁, l₂, l₄)))
        ∙ append_system-fits developer_dir ((a ++ b) ++ c) settings.sdk fits
        ∙ ap some (sym (fence_bytes paths prefix developer_dir settings.sdk)))
