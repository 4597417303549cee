-- ===== src/Trace/Rules.antt =====
-- The rules that the trace server sends and the traced process follows: the "filemap" of
-- src/darwintracelib1.0/darwintrace.c (no relation to filemap.c). Each rule is the beginning of the
-- paths it is about, and what is to be done with them.
use mac_ports_fork.CString.{Bytes}
use mac_ports_fork.Prelude.{
  ℕ, List, [], ◌∷◌, ◌++◌, Option, none, some, Bool, true, false, ◌==◌, if◌then◌else◌, length, ltb,
}
use mac_ports_fork.Trace.Strings.{IsWord}

pub data Rule : Type 0 where
  allow : Bytes → Rule
  redirect : Bytes → Bytes → Rule
  ask : Bytes → Rule

-- The bytes of a rule: "path\0", then 0, or 1 and the new root, or 2, then a terminator.
abbrev pub rule_bytes : Rule → Bytes
rule_bytes (allow path) = path ++ 0 ∷ 0 ∷ 0 ∷ []
rule_bytes (redirect path root) = path ++ 0 ∷ 1 ∷ (root ++ 0 ∷ [])
rule_bytes (ask path) = path ++ 0 ∷ 2 ∷ 0 ∷ []

abbrev pub rules_bytes : List Rule → Bytes
rules_bytes [] = []
rules_bytes (r ∷ rs) = rule_bytes r ++ rules_bytes rs

abbrev pub IsRule : Rule → Type 0
IsRule (allow path) = IsWord path
IsRule (redirect path root) = IsWord path × IsWord root
IsRule (ask path) = IsWord path

abbrev pub AreRules : List Rule → Type 0
AreRules [] = Unit
AreRules (r ∷ rs) = IsRule r × AreRules rs

-- What becomes of a path. A denial is reported to the server if no rule is about the path.
pub data Ruling : Type 0 where
  allowed : Ruling
  redirected : Bytes → Ruling
  denied : Bool → Ruling

-- `__darwintrace_strbeginswith`.
unfoldable pub strbeginswith : Bytes → Bytes → Bool
strbeginswith s [] = true
strbeginswith [] (p ∷ prefix) = false
strbeginswith (c ∷ s) (p ∷ prefix) =
    let rest = strbeginswith s prefix in if p == c then rest else false

-- The last byte of a string.
unfoldable pub last_byte : Bytes → ℕ
last_byte [] = 0
last_byte (c ∷ []) = c
last_byte (c ∷ d ∷ s) = last_byte (d ∷ s)

abbrev pub with_slash : Bytes → Bytes
with_slash s = if last_byte s == b'/' then s else s ++ b'/' ∷ []

-- The path below the new root, in a buffer of `size` bytes; without a buffer, or with a root that
-- has no bytes or a path that does not fit, there is none.
unfoldable pub redirect_to : Option ℕ → Bytes → Bytes → Option Ruling
unfolding last_byte
redirect_to none root path = some (denied false)
redirect_to (some size) [] path = none
redirect_to (some size) (c ∷ root) path =
    let whole = with_slash (c ∷ root) ++ path in
    if ltb (length whole) size then some (redirected whole) else none

abbrev pub answered : Option Bool → Option Ruling
answered none = none
answered (some true) = some allowed
answered (some false) = some (denied false)

-- The first rule that is about the path decides.
module _ (size : Option ℕ) (asked : Bytes → Option Bool) (path : Bytes) where
  abbrev pub apply : Rule → Option Ruling
  apply (allow prefix) = some allowed
  apply (redirect prefix root) = redirect_to size root path
  apply (ask prefix) = answered (asked path)

  abbrev pub prefix_of : Rule → Bytes
  prefix_of (allow prefix) = prefix
  prefix_of (redirect prefix root) = prefix
  prefix_of (ask prefix) = prefix

  unfoldable pub decide : List Rule → Option Ruling
  unfolding strbeginswith redirect_to
  decide [] = some (denied true)
  decide (r ∷ rs) = elim (strbeginswith path (prefix_of r)) [ true ↦ apply r | false ↦ decide rs ]
