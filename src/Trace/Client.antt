-- ===== src/Trace/Client.antt =====
-- The traced process in src/darwintracelib1.0/darwintrace.c: how it rules on a path. `none` is a
-- memory error of the C code, such as a path that overflows its buffer.
pub mod Follows
pub mod Returns
use mac_ports_fork.CString.{Bytes}
use mac_ports_fork.Prelude.{
  ℕ, zero, suc, ◌+◌, List, [], ◌∷◌, ◌++◌, Option, none, some, Bool, true, false, ◌==◌,
  if◌then◌else◌, length, ltb, get_or, drop, not,
}
use mac_ports_fork.Trace.CleanPath.{cleanup_path}
use mac_ports_fork.Trace.Rules.{
  Ruling, allowed, redirected, denied, strbeginswith, last_byte, with_slash, redirect_to, answered,
}
use mac_ports_fork.Trace.Strings.{string_at, behind_string}

-- <sys/param.h>.
abbrev pub maxpathlen : ℕ
maxpathlen = 1024

abbrev pub buffer_size : ℕ
buffer_size = 1024

-- What the kernel says of a path: nothing there, a directory, a block device or a socket (whose mode
-- has the bit S_IFDIR too), or anything else.
pub data Kind : Type 0 where
  absent directory device other : Kind

-- The process: the filemap that it got, if it is traced; its working directory, the files, the paths
-- where `lstat` fails with ENOENT, and the server's answers, where no answer counts as no.
pub record Process : Type 0 where
  pub filemap : Option Bytes
  pub cwd : Bytes
  pub kind : Bytes → Kind
  pub missing : Bytes → Bool
  pub server_allows : Bytes → Bool

-- `ask_for_filemap`: what the server sends, with a terminator behind it; no answer and an empty one
-- leave the process without a filemap.
unfoldable pub ask_for_filemap : Option Bytes → Process → Process
ask_for_filemap none proc = record proc { filemap = none }
ask_for_filemap (some []) proc = record proc { filemap = none }
ask_for_filemap (some (c ∷ s)) proc = record proc { filemap = some ((c ∷ s) ++ 0 ∷ []) }

-- `is_directory`: also where nothing is there.
abbrev pub not_other : Kind → Bool
not_other absent = true
not_other directory = true
not_other device = false
not_other other = false

unfoldable pub is_directory : Process → Bytes → Bool
is_directory proc path = not_other (proc.kind path)

-- `ask_for_dependency`. The message is "dep_check\t" and the path, in a buffer.
unfoldable pub ask_for_dependency : Process → Bytes → Option Bool
unfolding is_directory
ask_for_dependency proc path =
    if is_directory proc path
    then some true
    else if ltb (10 + length path) buffer_size
    then some (proc.server_allows path)
    else none

-- What a rule that fits says: a ruling, a memory error, or nothing.
pub data Word : Type 0 where
  ruling : Option Ruling → Word
  nothing : Word

-- The `switch` at the byte behind a rule's path.
unfoldable pub resolution : Process → Option ℕ → Bytes → Bytes → Word
unfolding ask_for_dependency redirect_to string_at
resolution proc size path [] = ruling none
resolution proc size path (c ∷ t) =
    if c == 0
    then ruling (some allowed)
    else if c == 1
    then ruling (redirect_to size (string_at t) path)
    else if c == 2
    then ruling (answered (ask_for_dependency proc path))
    else nothing

-- To the next rule.
unfoldable pub next_rule : Bytes → Bytes
unfolding behind_string
next_rule t = let t' = behind_string t in if get_or t' 0 0 == 1 then behind_string t' else drop 2 t'

-- The loop over the filemap, on fuel: each round reads at least a byte.
unfoldable pub find_rule : Process → Option ℕ → Bytes → ℕ → Bytes → Option Ruling
unfolding resolution next_rule strbeginswith string_at behind_string
find_rule proc size path zero t = none
find_rule proc size path (suc fuel) [] = none
find_rule proc size path (suc fuel) (c ∷ t) = elim (c == 0) [
  | true ↦ some (denied true)
  | false ↦ elim (strbeginswith path (string_at (c ∷ t))) [
    | false ↦ find_rule proc size path fuel (next_rule (c ∷ t))
    | true ↦ elim (resolution proc size path (behind_string (c ∷ t))) [
      | ruling r ↦ r
      | nothing ↦ find_rule proc size path fuel (next_rule (behind_string (c ∷ t)))
    ]
  ]
]

-- The path from the root; a relative one is appended to the working directory.
unfoldable pub absolute_path : Process → Bytes → Option Bytes
unfolding last_byte
absolute_path proc path =
    let joined = with_slash proc.cwd ++ path in
    if get_or path 0 0 == b'/'
    then some path
    else if ltb (length joined) maxpathlen
    then some joined
    else none

-- `__darwintrace_is_in_sandbox`; `size` is that of the buffer `newpath`, if there is one.
unfoldable pub is_in_sandbox : Process → Bytes → Option ℕ → Option Ruling
unfolding absolute_path cleanup_path find_rule
is_in_sandbox proc path size = elim proc.filemap [
  | none ↦ some allowed
  | some t ↦ elim (absolute_path proc path) [
    | none ↦ none
    | some p ↦ find_rule proc size (cleanup_path p) (suc (length t)) t
  ]
]
