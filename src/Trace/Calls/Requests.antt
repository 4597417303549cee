-- ===== src/Trace/Calls/Requests.antt =====
-- The requests of a traced process, and on which paths src/darwintracelib1.0/darwintrace.c may make
-- the system calls for them.
use mac_ports_fork.CString.{Bytes}
use mac_ports_fork.Prelude.{
  ℕ, ◌+◌, ◌≡◌, ◌⊎◌, List, [], ◌∷◌, Option, none, some, Bool, true, false, ◌&&◌,
}
use mac_ports_fork.Trace.Calls.{
  Call, Result, stat, found, open_call, unlink, rmdir, mkdir, readlink, looks_missing, lstat,
  rename, Program, execve,
}
use mac_ports_fork.Trace.Client.{Process, maxpathlen, is_directory, is_in_sandbox}
use mac_ports_fork.Trace.Rules.{allowed, redirected}

-- The sandbox lets the path through as it is, or as another.
abbrev pub Admits : Process → Bytes → Option ℕ → List Bytes → Type 0
Admits proc path size to =
    ((is_in_sandbox proc path size ≡ some allowed) × (to ≡ path ∷ []))
    ⊎ ((new : Bytes) × (is_in_sandbox proc path size ≡ some (redirected new)) × (to ≡ new ∷ []))

-- The requests of the traced process to which the guards apply.
pub data Request : Type 0 where
  unlink_of : Bytes → Request
  rmdir_of : Bytes → Request
  rename_of : Bytes → Bytes → Request
  mkdir_of : Bytes → Request
  create_of : Bytes → Request
  open_of : Bytes → Request
  readlink_of : Bool → Bytes → Request
  stat_of : Bytes → Request
  lstat_of : Bytes → Request
  execve_of : Program → Bytes → Request

abbrev pub perform : Process → Request → Result Call
perform proc (unlink_of path) = unlink proc path
perform proc (rmdir_of path) = rmdir proc path
perform proc (rename_of old new) = rename proc old new
perform proc (mkdir_of path) = mkdir proc path
perform proc (create_of path) = open_call proc true path
perform proc (open_of path) = open_call proc false path
perform proc (readlink_of works path) = readlink proc works path
perform proc (stat_of path) = stat proc path
perform proc (lstat_of path) = lstat proc path
perform proc (execve_of program path) = execve proc true program path

abbrev opens_it : Program → Bool
opens_it program = program.exists && program.opens

-- A path for which the library's own `stat` finds no plain file.
abbrev pub IsUnseen : Process → Bytes → Type 0
IsUnseen proc path =
    (sent : List Bytes) × (seen : Call) × (stat proc path ≡ some (sent, seen))
    × (found proc seen ≡ false)

-- A path for which the library's own `lstat` does not fail with ENOENT.
abbrev pub IsThere : Process → Bytes → Type 0
IsThere proc path =
    (sent : List Bytes) × (seen : Call) × (lstat proc path ≡ some (sent, seen))
    × (looks_missing proc seen ≡ false)

-- On which paths a system call may be made.
abbrev pub Permits : Process → Request → List Bytes → Type 0
Permits proc (unlink_of path) to = Admits proc path none to
Permits proc (rmdir_of path) to = Admits proc path none to
Permits proc (rename_of old new) to =
    (old' : List Bytes) × (new' : List Bytes) × Admits proc old none old'
    × Admits proc new none new'
    × (to ≡ old ∷ new')
Permits proc (mkdir_of path) to = (IsThere proc path × (to ≡ path ∷ [])) ⊎ Admits proc path none to
Permits proc (open_of path) to =
    (IsUnseen proc path × (to ≡ path ∷ [])) ⊎ Admits proc path (some maxpathlen) to
Permits proc (readlink_of works path) to =
    ((works ≡ false) × (to ≡ path ∷ [])) ⊎ Admits proc path none to
Permits proc (create_of path) to = Admits proc path (some maxpathlen) to
Permits proc (stat_of path) to =
    ((is_directory proc path ≡ true) × (to ≡ path ∷ [])) ⊎ Admits proc path (some 260) to
Permits proc (lstat_of path) to =
    ((is_directory proc path ≡ true) × (to ≡ path ∷ [])) ⊎ Admits proc path (some 260) to
Permits proc (execve_of program path) to =
    ((opens_it program ≡ false) × (to ≡ path ∷ [])) ⊎ Admits proc path (some (maxpathlen + 1)) to
