-- ===== src/Trace/Client/Returns.antt =====
-- `__darwintrace_is_in_sandbox` of src/darwintracelib1.0/darwintrace.c comes to a ruling.
use mac_ports_fork.CString.{Bytes}
use mac_ports_fork.Prelude.{
  ℕ, suc, ◌+◌, ◌<◌, ◌≤◌, ◌≡◌, refl, ◌∙◌, List, [], ◌∷◌, ◌++◌, Option, none, some, Bool, true, false,
  ◌==◌, Bool-cases, inl, inr, arith, length, length-append, ltb, if◌then◌else◌,
}
use mac_ports_fork.Trace.CleanPath.{cleanup_path}
use mac_ports_fork.Trace.CleanPath.Bounds.{length-cleanup_path}
use mac_ports_fork.Trace.Client.{
  Process, is_directory, ask_for_dependency, buffer_size, absolute_path, is_in_sandbox,
}
use mac_ports_fork.Trace.Client.Follows.{is_in_sandbox-decide}
use mac_ports_fork.Trace.Rules.{
  Rule, allow, redirect, ask, IsRule, AreRules, rules_bytes, Ruling, allowed, redirected, denied,
  strbeginswith, last_byte, with_slash, redirect_to, answered, apply, prefix_of, decide,
}
use mac_ports_fork.Trace.Strings.{IsText, IsWord}

-- There is room for a path of so many bytes below each of the new roots.
abbrev pub HasRoom : Option ℕ → ℕ → List Rule → Type 0
HasRoom size long [] = Unit
HasRoom none long (r ∷ rs) = Unit
HasRoom (some n) long (redirect path root ∷ rs) =
    (length root + suc long < n) × HasRoom (some n) long rs
HasRoom (some n) long (allow path ∷ rs) = HasRoom (some n) long rs
HasRoom (some n) long (ask path ∷ rs) = HasRoom (some n) long rs

-- A result is there.
abbrev pub Returns : Option Ruling → Type 0
Returns o = (r : Ruling) × (o ≡ some r)

ask_for_dependency-answers :
    (proc : Process) (path : Bytes)
    → 10 + length path < buffer_size
    → (b : Bool) × (ask_for_dependency proc path ≡ some b)
unfolding ask_for_dependency
ask_for_dependency-answers proc path h =
    let fits : ltb (10 + length path) 1024 ≡ true = ground (arith, h) in
    elim (Bool-cases (is_directory proc path)) [
      | inl dir ↦ (true, rw dir refl)
      | inr file ↦ (proc.server_allows path, rw (file, fits) refl)
    ]

with_slash-length : (root : Bytes) → length (with_slash root) ≤ suc (length root)
with_slash-length root = either (last_byte root == b'/')
  where
    either : (b : Bool) → length (if b then root else root ++ b'/' ∷ []) ≤ suc (length root)
    either true = omega arith
    either false = omega (arith, length-append root (b'/' ∷ []))

redirect_to-Returns :
    (size : Option ℕ) (path word root : Bytes) (rs : List Rule) (long : ℕ)
    → IsWord root
    → length path ≤ long
    → HasRoom size long (redirect word root ∷ rs)
    → Returns (redirect_to size root path)
unfolding redirect_to
redirect_to-Returns none path word root rs long h l room = (denied false, refl)
redirect_to-Returns (some n) path word [] rs long h l room = elim h [ ]
redirect_to-Returns (some n) path word (c ∷ root) rs long h l room =
    let whole = with_slash (c ∷ root) ++ path in
    let fits : ltb (length whole) n ≡ true = ground (
      arith,
      room.0,
      l,
      with_slash-length (c ∷ root),
      length-append (with_slash (c ∷ root)) path,
    ) in
    (redirected whole, rw fits refl)

module _ (size : Option ℕ) (proc : Process) (path : Bytes) (long : ℕ) where
  apply-Returns :
      (r : Rule) (rs : List Rule)
      → IsRule r
      → length path ≤ long
      → 10 + long < buffer_size
      → HasRoom size long (r ∷ rs)
      → Returns (apply size (ask_for_dependency proc) path r)
  apply-Returns (allow word) rs h l m room = (allowed, refl)
  apply-Returns (redirect word root) rs h l m room =
      redirect_to-Returns size path word root rs long h.1 l room
  apply-Returns (ask word) rs h l m room =
      let (b, e) = ask_for_dependency-answers proc path (omega (arith, l, m)) in either b e
    where
      either :
          (b : Bool)
          → ask_for_dependency proc path ≡ some b
          → Returns (answered (ask_for_dependency proc path))
      either true e = (allowed, rw e refl)
      either false e = (denied false, rw e refl)

  HasRoom-rest : (r : Rule) (rs : List Rule) → HasRoom size long (r ∷ rs) → HasRoom size long rs
  HasRoom-rest r rs room = at size r rs room
    where
      at :
          (size : Option ℕ) (r : Rule) (rs : List Rule)
          → HasRoom size long (r ∷ rs)
          → HasRoom size long rs
      at none r [] room = tt
      at none r (q ∷ qs) room = tt
      at (some n) (redirect word root) rs room = room.1
      at (some n) (allow word) rs room = room
      at (some n) (ask word) rs room = room

  decide-Returns :
      (rs : List Rule)
      → AreRules rs
      → length path ≤ long
      → 10 + long < buffer_size
      → HasRoom size long rs
      → Returns (decide size (ask_for_dependency proc) path rs)
  unfolding decide
  decide-Returns [] h l m room = (denied true, refl)
  decide-Returns (r ∷ rs) h l m room =
      let rest = decide-Returns rs h.1 l m (HasRoom-rest r rs room) in
      elim (Bool-cases (strbeginswith path (prefix_of size (ask_for_dependency proc) path r))) [
        | inl fits ↦ rw (decide, fits) (apply-Returns r rs h.0 l m room)
        | inr not_fits ↦ rw (decide, not_fits) rest
      ]

-- A process with a well-formed filemap comes to a ruling, with no memory error, on a path that
-- leaves room for it in the message to the server (1013 bytes) and below each of the new roots.
pub is_in_sandbox-Returns :
    (proc : Process) (size : Option ℕ) (path p : Bytes) (rs : List Rule)
    → AreRules rs
    → proc.filemap ≡ some (rules_bytes rs ++ 0 ∷ [])
    → absolute_path proc path ≡ some p
    → IsText p
    → 10 + length p < buffer_size
    → HasRoom size (length p) rs
    → Returns (is_in_sandbox proc path size)
is_in_sandbox-Returns proc size path p rs h e a t m room =
    let (r, k) =
      decide-Returns size proc (cleanup_path p) (length p) rs h (length-cleanup_path p t) m room in
    (r, is_in_sandbox-decide proc size path p rs h e a ∙ k)
