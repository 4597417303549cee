-- ===== src/Trace/Calls.antt =====
-- The functions of the C library that src/darwintracelib1.0/darwintrace.c puts its own in place of:
-- which system call is made, if one is, and which messages go to the server. `none` is a memory
-- error of the C code.
pub mod Guards
pub mod Requests
pub mod Refusals
use mac_ports_fork.CString.{Bytes}
use mac_ports_fork.Prelude.{
  ◌>>=◌, ℕ, zero, suc, ◌+◌, ◌-◌, List, [], ◌∷◌, ◌++◌, Option, none, some, Bool, true, false, ◌==◌,
  if◌then◌else◌, length, ltb, leb, get_or, take, ◌||◌, ◌&&◌,
}
use mac_ports_fork.Trace.CleanPath.{cleanup_path}
use mac_ports_fork.Trace.Client.{
  maxpathlen, buffer_size, Kind, absent, directory, device, other, Process, is_directory,
  is_in_sandbox,
}
use mac_ports_fork.Trace.Rules.{Ruling, allowed, redirected, denied}
use mac_ports_fork.Trace.Strings.{string_at}

pub data Errno : Type 0 where
  eacces enoent : Errno

-- What becomes of a call: it is made, on these paths, or refused.
pub data Call : Type 0 where
  made : List Bytes → Call
  refused : Errno → Call

-- The messages, in their order, and what becomes of the call.
abbrev pub Result : Type 0 → Type 0
Result A = Option (List Bytes × A)

abbrev pub then_send : {B : Type 0} → List Bytes → Result B → Result B
then_send sent none = none
then_send sent (some (more, b)) = some (sent ++ more, b)

infixl 5 ◌|>◌
abbrev pub ◌|>◌ : {A B : Type 0} → Result A → (A → Result B) → Result B
none |> f = none
some (sent, a) |> f = then_send sent (f a)

-- The path that `__darwintrace_log_op` writes into `somepath`. What F_GETPATH says is overwritten;
-- if it fails, a relative path stays as it is.
abbrev pub some_path : Process → Bool → Bytes → Option Bytes
some_path proc no_path path =
    let left = maxpathlen - suc (length proc.cwd) in
    if no_path || (get_or path 0 0 == b'/')
    then some (take (maxpathlen - 1) path)
    else if left == 0
    then none
    else some (proc.cwd ++ b'/' ∷ take (left - 1) path)

-- `__darwintrace_log_op`; the message has its terminator, in a buffer of 1024 bytes.
unfoldable pub log_op : Process → Bool → Bytes → Bytes → Option Bytes
log_op proc no_path op path = do
  written ← some_path proc no_path path
  let text = op ++ b'\t' ∷ cleanup_path written
  if ltb (length text) buffer_size then some (text ++ 0 ∷ []) else none

abbrev pub send : {A : Type 0} → Option Bytes → A → Result A
send none a = none
send (some message) a = some (message ∷ [], a)

abbrev pub violation : Bytes
violation =
    b's' ∷ b'a' ∷ b'n' ∷ b'd' ∷ b'b' ∷ b'o' ∷ b'x' ∷ b'_' ∷ b'v' ∷ b'i' ∷ b'o' ∷ b'l' ∷ b'a' ∷ b't'
    ∷ b'i' ∷ b'o' ∷ b'n' ∷ []

abbrev pub exec : Bytes
exec = b'e' ∷ b'x' ∷ b'e' ∷ b'c' ∷ b'v' ∷ b'e' ∷ []

-- The end of `__darwintrace_is_in_sandbox`: a path of no rule is reported.
unfoldable pub report : Process → Bytes → Ruling → Result Ruling
unfolding log_op
report proc path (denied true) = send (log_op proc false violation path) (denied true)
report proc path r = some ([], r)

abbrev pub rule : Process → Bytes → Option ℕ → Result Ruling
rule proc path size = is_in_sandbox proc path size >>= report proc path

-- On the path, below the new root, or not at all.
abbrev pub guarded : Errno → Bytes → Ruling → Call
guarded errno path allowed = made (path ∷ [])
guarded errno path (redirected new) = made (new ∷ [])
guarded errno path (denied reported) = refused errno

abbrev pub guard : Errno → Process → Bytes → Option ℕ → Result Call
guard errno proc path size = rule proc path size |> λ r. some ([], guarded errno path r)

-- `stat`, with its buffer of 260 bytes.
unfoldable pub stat : Process → Bytes → Result Call
unfolding is_directory is_in_sandbox report
stat proc path =
    if is_directory proc path
    then some ([], made (path ∷ []))
    else guard enoent proc path (some 260)

-- `lstat`, likewise.
unfoldable pub lstat : Process → Bytes → Result Call
unfolding is_directory is_in_sandbox report
lstat proc path =
    if is_directory proc path
    then some ([], made (path ∷ []))
    else guard enoent proc path (some 260)

-- Whether `stat` found a file: no bit S_IFDIR in its mode.
abbrev pub plain : Kind → Bool
plain other = true
plain _ = false

abbrev pub found : Process → Call → Bool
found proc (made []) = false
found proc (made (path ∷ paths)) = plain (proc.kind path)
found proc (refused errno) = false

-- `open`; the `stat` that it calls is the one above.
abbrev pub open_seen : Process → Bool → Bytes → Call → Result Call
open_seen proc creates path seen =
    if found proc seen || creates
    then guard eacces proc path (some maxpathlen)
    else some ([], made (path ∷ []))

unfoldable pub open_call : Process → Bool → Bytes → Result Call
unfolding is_in_sandbox report stat
open_call proc creates path = stat proc path |> open_seen proc creates path

-- `readlink` looks after the call, if that has worked.
unfoldable pub readlink : Process → Bool → Bytes → Result Call
unfolding is_in_sandbox report
readlink proc works path =
    if works then guard eacces proc path none else some ([], made (path ∷ []))

unfoldable pub unlink : Process → Bytes → Result Call
unfolding is_in_sandbox report
unlink proc path = guard eacces proc path none

unfoldable pub rmdir : Process → Bytes → Result Call
unfolding is_in_sandbox report
rmdir proc path = guard eacces proc path none

-- Whether the library's own `lstat` fails with ENOENT.
abbrev pub looks_missing : Process → Call → Bool
looks_missing proc (made []) = false
looks_missing proc (made (path ∷ paths)) = proc.missing path
looks_missing proc (refused errno) = true

-- A denied directory that is there already is left to the system call.
abbrev pub unless_there : Process → Bytes → Call → Result Call
unless_there proc path (made paths) = some ([], made paths)
unless_there proc path (refused errno) = lstat proc path |> λ seen.
    some ([], if looks_missing proc seen then refused eacces else made (path ∷ []))

unfoldable pub mkdir : Process → Bytes → Result Call
unfolding is_in_sandbox report lstat
mkdir proc path = guard eacces proc path none |> unless_there proc path

abbrev pub both : Bytes → Call → Call
both old (refused errno) = refused errno
both old (made paths) = made (old ∷ paths)

abbrev pub rename_to : Process → Bytes → Bytes → Call → Result Call
rename_to proc old new (refused errno) = some ([], refused errno)
rename_to proc old new (made paths) = guard eacces proc new none |> λ call. some ([], both old call)

unfoldable pub rename : Process → Bytes → Bytes → Result Call
unfolding is_in_sandbox report
rename proc old new = guard eacces proc old none |> rename_to proc old new

-- The interpreter of a script, from the bytes at its beginning.
unfoldable pub skip_blanks : Bytes → Bytes
skip_blanks [] = []
skip_blanks (c ∷ s) =
    let rest = skip_blanks s in if (c == b' ') || (c == b'\t') then rest else c ∷ s

unfoldable pub until_blank : Bytes → Bytes
until_blank [] = []
until_blank (c ∷ s) =
    let rest = until_blank s in
    if (c == b' ') || ((c == b'\t') || (c == b'\n')) then [] else c ∷ rest

abbrev pub interpreter_of : Bytes → Bytes → Bytes
interpreter_of s [] = string_at s
interpreter_of s (c ∷ t) = string_at (until_blank (c ∷ t))

unfoldable pub interpreter : Bytes → Bytes
unfolding skip_blanks until_blank string_at
interpreter (c ∷ d ∷ e ∷ s) =
    if (c == b'#') && (d == b'!') then interpreter_of (e ∷ s) (skip_blanks (e ∷ s)) else []
interpreter head = []

-- What the kernel says of a program: it is there, as a link; it can be opened; F_GETPATH fails; its
-- beginning, if it can be read.
pub record Program : Type 0 where
  pub exists : Bool
  pub link : Bool
  pub opens : Bool
  pub no_path : Bool
  pub head : Option Bytes

abbrev pub log_link : Process → Program → Bytes → Result Unit
log_link proc program path =
    if program.link then send (log_op proc false exec path) tt else some ([], tt)

-- Behind the guard: the program is logged, and its interpreter.
abbrev pub log_program : Process → Program → Bytes → Result Unit
log_program proc program path = send (log_op proc program.no_path exec path) tt |> λ _.
    elim program.head [
      | none ↦ none
      | some head ↦ elim (interpreter head) [
        | [] ↦ some ([], tt)
        | c ∷ s ↦ send (log_op proc false exec (c ∷ s)) tt
      ]
    ]

-- Once the program is open and ruled on.
abbrev pub opened : Process → Program → Call → Result Call
opened proc program (refused errno) = some ([], refused errno)
opened proc program (made paths) =
    log_program proc program (get_or paths 0 []) |> λ _. some ([], made paths)

abbrev pub check_program : Process → Program → Bytes → Result Call
check_program proc program path =
    if program.opens
    then guard enoent proc path (some (maxpathlen + 1)) |> opened proc program
    else some ([], made (path ∷ []))

-- `execve`, where the process is connected to the server or not.
unfoldable pub execve : Process → Bool → Program → Bytes → Result Call
unfolding is_in_sandbox report log_op interpreter
execve proc connected program path =
    if connected && program.exists
    then log_link proc program path |> (λ _. check_program proc program path)
    else some ([], made (path ∷ []))
