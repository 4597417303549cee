-- ===== src/Trace/Messages.antt =====
-- How the trace server of src/pextlib1.0/tracelib.c takes messages apart and acts on them. `none` is
-- a memory error of the C code, or a message that the buffer has no room for or whose rest is not
-- there yet, so that it is taken with bytes of the one before.
pub mod Delivered
use mac_ports_fork.CString.{Bytes}
use mac_ports_fork.Filemap.FilePath.{same_bytes}
use mac_ports_fork.Prelude.{
  ◌>>=◌, ℕ, zero, suc, ◌+◌, List, [], ◌∷◌, ◌++◌, Option, none, some, Bool, true, false, ◌==◌, ◌&&◌,
  if◌then◌else◌, length, leb,
}
use mac_ports_fork.Trace.Calls.{violation, exec}
use mac_ports_fork.Trace.Client.{buffer_size}
use mac_ports_fork.Trace.Server.{Settings, Tracelib, send_file_map, dep_check}
use mac_ports_fork.Trace.Strings.{strings}

abbrev pub filemap_word : Bytes
filemap_word = b'f' ∷ b'i' ∷ b'l' ∷ b'e' ∷ b'm' ∷ b'a' ∷ b'p' ∷ []

abbrev pub dep_word : Bytes
dep_word = b'd' ∷ b'e' ∷ b'p' ∷ b'_' ∷ b'c' ∷ b'h' ∷ b'e' ∷ b'c' ∷ b'k' ∷ []

-- What the server does: it sends its filemap, or '+' or '!', to the process; it hands a path to
-- `slave_add_sandbox_violation`; it warns of a command.
pub data Effect : Type 0 where
  sent : Bytes → Effect
  replied : Bool → Effect
  recorded : Bytes → Effect
  warned : Effect

-- At the first tab.
unfoldable pub split_tab : Bytes → Option (Bytes × Bytes)
split_tab [] = none
split_tab (c ∷ s) = elim (c == b'\t') [
  | true ↦ some ([], s)
  | false ↦ elim (split_tab s) [ none ↦ none | some (name, arg) ↦ some (c ∷ name, arg) ]
]

-- What can be received, up to a terminator, and what is behind it.
unfoldable pub until_zero : Bytes → Option (Bytes × Bytes)
until_zero [] = none
until_zero (c ∷ s) = elim (c == 0) [
  | true ↦ some ([], s)
  | false ↦ elim (until_zero s) [ none ↦ none | some (text, rest) ↦ some (c ∷ text, rest) ]
]

-- A line that reaches to the end of a full buffer is moved to its front, and its rest received.
unfoldable pub extend : Bool → Bytes → Bytes → Option (Bytes × Bytes)
unfolding until_zero
extend false text more = some (text, more)
extend true text more = do
  (rest, more') ← until_zero more
  if leb (length text + suc (length rest)) buffer_size then some (text ++ rest, more') else none

abbrev pub Acted : Type 0
Acted = Option (Tracelib × List Effect)

-- `registry::file_registered` says of which port a file is.
module _ (settings : Settings) (file_registered : Bytes → Bytes) where
  abbrev pub send_rules : Tracelib → Acted
  send_rules tl = do (tl', out) ← send_file_map settings tl; some (tl', sent out ∷ [])

  abbrev pub reply : Bytes → Tracelib → Acted
  reply path tl = do allows ← dep_check tl (file_registered path); some (tl, replied allows ∷ [])

  -- The chain of comparisons with the names of commands.
  unfoldable pub command : Bytes → Bytes → Tracelib → Acted
  unfolding send_file_map dep_check
  command name arg tl =
      if same_bytes name filemap_word
      then send_rules tl
      else if same_bytes name violation
      then some (tl, recorded arg ∷ [])
      else if same_bytes name dep_word
      then reply arg tl
      else if same_bytes name exec
      then some (tl, [])
      else some (tl, warned ∷ [])

  -- A line, and whether the loop goes on behind it.
  unfoldable pub one_line : Bytes → Tracelib → Option (Bool × Tracelib × List Effect)
  unfolding split_tab command
  one_line text tl = elim (split_tab text) [
    | none ↦ some (false, tl, warned ∷ [])
    | some (name, arg) ↦ command name arg tl >>= λ (tl', effects). some (true, tl', effects)
  ]

  abbrev pub Handled : Type 0
  Handled = Option (Tracelib × List Effect × Bytes)

  abbrev pub behind_effects : List Effect → Handled → Handled
  behind_effects effects none = none
  behind_effects effects (some (tl, more_effects, more)) = some (tl, effects ++ more_effects, more)

  -- The loop over the lines of the buffer; the flag says that 1023 bytes were received.
  unfoldable pub lines : Bool → ℕ → List Bytes → Bytes → Tracelib → Handled
  unfolding extend one_line
  lines full offset [] more tl = some (tl, [], more)
  lines full offset (text ∷ texts) more tl = do
    (text', more') ← extend (full && (offset + suc (length text) == buffer_size)) text more
    (goes_on, tl', effects) ← one_line text' tl
    let next = lines full (offset + suc (length text)) texts more' tl'
    behind_effects effects (if goes_on then next else some (tl', [], more'))

  -- `process_line` with what `recv` gives, and with the bytes that wait behind it. The connection is
  -- kept or closed.
  unfoldable pub process_line :
      Option Bytes → Bytes → Tracelib → Option (Bool × Tracelib × List Effect × Bytes)
  unfolding lines strings
  process_line none more tl = some (false, tl, [], more)
  process_line (some []) more tl = some (false, tl, [], more)
  process_line (some (c ∷ s)) more tl = do
    texts ← strings ((c ∷ s) ++ 0 ∷ 0 ∷ [])
    (tl', effects, more') ← lines (length (c ∷ s) == 1023) 0 texts more tl
    some (true, tl', effects, more')
