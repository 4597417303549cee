-- ===== src/Trace/Server.antt =====
-- The trace server of src/pextlib1.0/tracelib.c: its state, the subcommands of `tracelib` that set
-- it, the rules that it sends, and its answers. `none` is a memory error of the C code.
pub mod Words
pub mod Sends
pub mod Ports
use mac_ports_fork.CString.{Bytes}
use mac_ports_fork.Filemap.FilePath.{same_bytes}
use mac_ports_fork.Prelude.{
  ◌>>=◌, ℕ, zero, suc, ◌+◌, ◌-◌, List, [], ◌∷◌, ◌++◌, Option, none, some, Bool, true, false, ◌==◌,
  not, ◌&&◌, if◌then◌else◌, length, leb, ltb, get_or, take,
}
use mac_ports_fork.Trace.Rules.{last_byte}
use mac_ports_fork.Trace.Strings.{strings}

-- The static variables. `sandbox` and `depends` are memory of strings, `filemap` the bytes up to
-- `filemap_end`.
pub record Tracelib : Type 0 where
  pub name : Option Bytes
  pub sandbox : Option Bytes
  pub filemap : Option Bytes
  pub depends : Option Bytes
  pub listening : Bool
  pub enable_fence : Bool
  pub cleanuping : Bool

-- What the server takes from its interpreter and from its build: the variables `prefix` and
-- `developer_dir`, and TRACE_SDK.
pub record Settings : Type 0 where
  pub prefix : Option Bytes
  pub developer_dir : Option Bytes
  pub sdk : Bytes

-- What is in front, in its order, and what is behind.
unfoldable pub rev_onto : Bytes → Bytes → Bytes
rev_onto [] s = s
rev_onto (c ∷ front) s = rev_onto front (c ∷ s)

-- The loop of `TracelibSetSandboxCmd` at the byte behind `front`, which is in reverse: ':' becomes a
-- terminator. Behind a backslash, the rest is moved over it without its own terminator, so that its
-- last byte is there twice, and the search goes on one byte later. On fuel, one for each byte.
unfoldable pub split_colons : ℕ → Bytes → Bytes → Bytes
unfolding rev_onto last_byte
split_colons zero front s = rev_onto front s
split_colons (suc fuel) front [] = rev_onto front []
split_colons (suc fuel) front (c ∷ s) = elim (c == b':') [
  | false ↦ split_colons fuel (c ∷ front) s
  | true ↦ elim front [
    | [] ↦ split_colons fuel (0 ∷ []) s
    | d ∷ before ↦ elim (d == b'\\') [
      | false ↦ split_colons fuel (0 ∷ d ∷ before) s
      | true ↦ elim (s ++ last_byte (b':' ∷ s) ∷ []) [
        | [] ↦ rev_onto (b':' ∷ before) []
        | x ∷ rest ↦ split_colons fuel (x ∷ b':' ∷ before) rest
      ]
    ]
  ]
]

-- The memory of `sandbox`; the first byte is not looked at.
unfoldable pub sandbox_block : Bytes → Bytes
unfolding split_colons
sandbox_block [] = 0 ∷ 0 ∷ []
sandbox_block (c ∷ s) = split_colons (suc (length s)) (c ∷ []) s ++ 0 ∷ 0 ∷ []

-- The loop of `TracelibSetDeps`: a space becomes a terminator, and the byte behind it is not looked
-- at.
unfoldable pub split_spaces : Bytes → Bytes
split_spaces [] = []
split_spaces (c ∷ []) = (if c == b' ' then 0 else c) ∷ []
split_spaces (c ∷ d ∷ s) =
    let next = split_spaces (d ∷ s) in
    let after = split_spaces s in if c == b' ' then 0 ∷ d ∷ after else c ∷ next

abbrev pub depends_block : Bytes → Bytes
depends_block text = split_spaces text ++ 0 ∷ 0 ∷ []

-- `append_allow`: the bytes so far and the room that remains.
unfoldable pub append_allow : Bytes → ℕ → Bytes × ℕ → Option (Bytes × ℕ)
append_allow path res (out, remaining) =
    if leb (length path + 3) remaining
    then some (out ++ (path ++ 0 ∷ res ∷ 0 ∷ []), remaining - (length path + 3))
    else none

unfoldable pub append_all : List Bytes → Bytes × ℕ → Option (Bytes × ℕ)
unfolding append_allow
append_all [] st = some st
append_all (path ∷ paths) st = append_allow path 0 st >>= append_all paths

abbrev pub append_var : Option Bytes → ℕ → Bytes × ℕ → Option (Bytes × ℕ)
append_var none res st = none
append_var (some path) res st = append_allow path res st

-- `append_allow("/", 1)` and the copy of the new root over its last byte.
unfoldable pub append_root : Bytes → Bytes × ℕ → Option (Bytes × ℕ)
append_root root (out, remaining) =
    let room = remaining - 4 in
    let front = out ++ b'/' ∷ 0 ∷ 1 ∷ [] in
    if ltb remaining 4
    then none
    else if ltb (length root) room
    then some (front ++ (root ++ 0 ∷ []), room)
    else if leb 2 room
    then some (front ++ (take (room - 1) root ++ 0 ∷ []), room)
    else none

abbrev pub bin : Bytes
bin = b'/' ∷ b'b' ∷ b'i' ∷ b'n' ∷ []

abbrev pub sbin : Bytes
sbin = b'/' ∷ b's' ∷ b'b' ∷ b'i' ∷ b'n' ∷ []

abbrev pub dev : Bytes
dev = b'/' ∷ b'd' ∷ b'e' ∷ b'v' ∷ []

abbrev pub usr : Bytes
usr = b'/' ∷ b'u' ∷ b's' ∷ b'r' ∷ []

abbrev pub library : Bytes
library = b'/' ∷ b'L' ∷ b'i' ∷ b'b' ∷ b'r' ∷ b'a' ∷ b'r' ∷ b'y' ∷ []

abbrev pub system_library : Bytes
system_library = b'/' ∷ b'S' ∷ b'y' ∷ b's' ∷ b't' ∷ b'e' ∷ b'm' ∷ library

abbrev pub gcc : Bytes
gcc = b'/' ∷ b'l' ∷ b'i' ∷ b'b' ∷ b'e' ∷ b'x' ∷ b'e' ∷ b'c' ∷ b'/' ∷ b'g' ∷ b'c' ∷ b'c' ∷ []

abbrev pub perl : Bytes
perl = b'/' ∷ b'P' ∷ b'e' ∷ b'r' ∷ b'l' ∷ []

abbrev pub sdks : Bytes
sdks = b'/' ∷ b'S' ∷ b'D' ∷ b'K' ∷ b's' ∷ b'/' ∷ []

-- The root of the SDK, in a buffer of 260 bytes.
abbrev pub sdk_root : Bytes → Bytes → Bytes
sdk_root developer_dir sdk = take 259 (developer_dir ++ (sdks ++ sdk))

-- The rules for the system, without an SDK and with one.
unfoldable pub append_system : Option Bytes → Bytes → Bytes × ℕ → Option (Bytes × ℕ)
unfolding append_all append_allow append_root
append_system developer_dir [] st = do
  st₁ ← append_all (usr ∷ system_library ∷ library ∷ []) st
  append_var developer_dir 0 st₁
append_system none (c ∷ sdk) st = none
append_system (some developer_dir) (c ∷ sdk) st = do
  st₁ ← append_all ((usr ++ bin) ∷ (usr ++ sbin) ∷ (usr ++ gcc) ∷ (system_library ++ perl) ∷ []) st
  append_root (sdk_root developer_dir (c ∷ sdk)) st₁

-- The filemap that `send_file_map` makes, in a buffer of 1024 bytes.
unfoldable pub build_filemap : Settings → Bool → Option Bytes → Option Bytes
unfolding append_all append_allow append_system
build_filemap settings false sandbox = do
  (out, remaining) ← append_allow (b'/' ∷ []) 0 ([], 1024)
  some out
build_filemap settings true sandbox = do
  block ← sandbox
  paths ← strings block
  st₁ ← append_all paths ([], 1024)
  st₂ ← append_all (bin ∷ sbin ∷ dev ∷ []) st₁
  st₃ ← append_var settings.prefix 2 st₂
  (out, remaining) ← append_system settings.developer_dir settings.sdk st₃
  some out

-- `send_file_map`: the filemap is made once, and sent.
unfoldable pub send_file_map : Settings → Tracelib → Option (Tracelib × Bytes)
unfolding build_filemap
send_file_map settings tl = elim tl.filemap [
  | some out ↦ some (tl, out)
  | none ↦ do
    out ← build_filemap settings tl.enable_fence tl.sandbox
    some (record tl { filemap = some out }, out)
]

-- One of the strings is this one.
unfoldable pub has_string : Bytes → List Bytes → Bool
has_string s [] = false
has_string s (t ∷ ts) = let rest = has_string s ts in if same_bytes t s then true else rest

abbrev pub depends_on : Option Bytes → Bytes → Option Bool
depends_on depends port = do block ← depends; names ← strings block; some (has_string port names)

-- `dep_check`: whether the answer is '+'. `port` is the result of `registry::file_registered`, which
-- is "0" for a file of no port.
unfoldable pub dep_check : Tracelib → Bytes → Option Bool
unfolding has_string
dep_check tl port = if same_bytes port (b'0' ∷ []) then some false else depends_on tl.depends port

-- `TracelibSetNameCmd`, `TracelibSetSandboxCmd`, `TracelibSetDeps`: the third word of three.
abbrev pub third : List Bytes → (Bytes → Tracelib) → Tracelib → Bool × Tracelib
third objv f tl = if length objv == 3 then (true, f (get_or objv 2 [])) else (false, tl)

unfoldable pub set_name : List Bytes → Tracelib → Bool × Tracelib
set_name objv tl = third objv (λ text. record tl { name = some text }) tl

unfoldable pub set_sandbox : List Bytes → Tracelib → Bool × Tracelib
unfolding sandbox_block
set_sandbox objv tl = third objv (λ text. record tl { sandbox = some (sandbox_block text) }) tl

unfoldable pub set_deps : List Bytes → Tracelib → Bool × Tracelib
unfolding split_spaces
set_deps objv tl = third objv (λ text. record tl { depends = some (depends_block text) }) tl

-- `TracelibEnableFence`: the filemap is made again.
unfoldable pub fence : Tracelib → Bool × Tracelib
fence tl = (true, record tl { enable_fence = true; filemap = none })

-- `TracelibOpenSocketCmd`, with the outcomes of `socket`, and of `bind` and `listen`. A socket that
-- is not bound stays open.
unfoldable pub open_socket : Bool → Bool → Tracelib → Bool × Tracelib
open_socket made bound tl =
    if tl.cleanuping
    then (true, tl)
    else if made
    then (bound, record tl { listening = true })
    else (false, record tl { listening = false })

-- `TracelibCleanCmd`.
unfoldable pub clean : Tracelib → Bool × Tracelib
clean tl = (
  true,
  record tl {
    listening = false;
    name = none;
    filemap = none;
    depends = none;
    enable_fence = false;
    cleanuping = false;
  },
)

-- `TracelibCloseSocketCmd`: `cleanuping` stays set until the next `clean`.
unfoldable pub close_socket : Tracelib → Bool × Tracelib
close_socket tl = (true, record tl { cleanuping = true; listening = false })
