-- ===== src/Trace/CleanPath.antt =====
-- `__darwintrace_cleanup_path` of src/darwintracelib1.0/darwintrace.c: a path without the suffix of
-- its resource fork, and with one slash for each run of slashes. It works in place.
pub mod Squeeze
pub mod SamePath
pub mod Bounds
use mac_ports_fork.CString.{Bytes}
use mac_ports_fork.Filemap.FilePath.{same_bytes}
use mac_ports_fork.Prelude.{
  ℕ, zero, suc, ◌+◌, ◌-◌, List, [], ◌∷◌, ◌++◌, Bool, true, false, ◌&&◌, ◌==◌, ltb, if◌then◌else◌,
  length, take, drop, get_or, set,
}
use mac_ports_fork.Trace.Strings.{string_at}

-- _PATH_RSRCFORKSPEC of <sys/paths.h>, "/..namedfork/rsrc".
abbrev pub rsrc_spec : Bytes
rsrc_spec =
    b'/' ∷ b'.' ∷ b'.' ∷ b'n' ∷ b'a' ∷ b'm' ∷ b'e' ∷ b'd' ∷ b'f' ∷ b'o' ∷ b'r' ∷ b'k' ∷ b'/' ∷ b'r'
    ∷ b's' ∷ b'r' ∷ b'c' ∷ []

unfoldable pub strip_rsrc : Bytes → Bytes
strip_rsrc path =
    let kept = length path - length rsrc_spec in
    if ltb (length rsrc_spec) (length path) && same_bytes (drop kept path) rsrc_spec
    then take kept path
    else path

-- The loop with `rounds` left: the flag is the state SAWSLASH, and `buf` the memory of `path`.
unfoldable pub cleanup_loop : ℕ → ℕ → ℕ → Bool → Bytes → Bytes
cleanup_loop zero i shift saw_slash buf = buf
cleanup_loop (suc rounds) i shift saw_slash buf = elim (saw_slash && (get_or buf i 0 == b'/')) [
  | true ↦ cleanup_loop rounds (suc i) (suc shift) true buf
  | false ↦
      cleanup_loop rounds (suc i) shift (get_or buf i 0 == b'/')
        (set buf (i - shift) (get_or buf i 0))
]

unfoldable pub cleanup_path : Bytes → Bytes
unfolding strip_rsrc cleanup_loop string_at
cleanup_path path =
    let stripped = strip_rsrc path in
    string_at (cleanup_loop (suc (length stripped)) 0 0 false (stripped ++ 0 ∷ []))
