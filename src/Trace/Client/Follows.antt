-- ===== src/Trace/Client/Follows.antt =====
-- The loop of `__darwintrace_is_in_sandbox` in src/darwintracelib1.0/darwintrace.c follows the rules
-- that the bytes stand for.
use mac_ports_fork.CString.{Bytes}
use mac_ports_fork.Prelude.{
  ℕ, zero, suc, ◌<◌, ◌≤◌, ◌≡◌, refl, ap, ◌∙◌, List, [], ◌∷◌, ◌++◌, Option, some, Bool, true, false,
  ◌==◌, arith, length, append_assoc, length-append,
}
use mac_ports_fork.Trace.CleanPath.{cleanup_path}
use mac_ports_fork.Trace.Client.{
  Process, ask_for_dependency, ruling, nothing, resolution, next_rule, find_rule, absolute_path,
  is_in_sandbox,
}
use mac_ports_fork.Trace.Rules.{
  Rule, allow, redirect, ask, rule_bytes, rules_bytes, IsRule, AreRules, Ruling, strbeginswith,
  redirect_to, apply, prefix_of, decide,
}
use mac_ports_fork.Trace.Strings.{IsText, IsWord, string_at-append, behind_string-append}

abbrev choose : Bool → Option Ruling → Option Ruling → Option Ruling
choose b x y = elim b [ true ↦ x | false ↦ y ]

choose-ap : (b : Bool) {x x' y y' : Option Ruling} → x ≡ x' → y ≡ y' → choose b x y ≡ choose b x' y'
choose-ap true p q = p
choose-ap false p q = q

module _ (proc : Process) (size : Option ℕ) (path : Bytes) where
  abbrev asked : Bytes → Option Bool
  asked = ask_for_dependency proc

  -- Behind a path that fits.
  abbrev matched : ℕ → Bytes → Option Ruling
  matched fuel t = elim (resolution proc size path t) [
    | ruling r ↦ r
    | nothing ↦ find_rule proc size path fuel (next_rule t)
  ]

  -- A round at a string with something behind it.
  find_rule-word :
      (fuel : ℕ) (word t : Bytes)
      → IsWord word
      → find_rule proc size path (suc fuel) (word ++ 0 ∷ t)
        ≡ choose
            (strbeginswith path word)
            (matched fuel t)
            (find_rule proc size path fuel (next_rule (word ++ 0 ∷ t)))
  unfolding find_rule
  find_rule-word fuel [] t h = elim h [ ]
  find_rule-word fuel (c ∷ s) t h =
      let e : (c == 0) ≡ false = ground arith in
      rw (find_rule, e, string_at-append (c ∷ s) t h)
        (choose-ap (strbeginswith path (c ∷ s))
          (ap (matched fuel) (behind_string-append (c ∷ s) t h)) refl)

  next_rule-plain :
      (word rest : Bytes) (b : ℕ)
      → IsText word
      → (b == 1) ≡ false
      → next_rule (word ++ 0 ∷ b ∷ 0 ∷ rest) ≡ rest
  unfolding next_rule
  next_rule-plain word rest b h k = rw (behind_string-append word (b ∷ 0 ∷ rest) h, k) refl

  next_rule-redirect :
      (word root rest : Bytes)
      → IsText word
      → IsText root
      → next_rule (word ++ 0 ∷ 1 ∷ (root ++ 0 ∷ rest)) ≡ rest
  unfolding next_rule
  next_rule-redirect word root rest h k =
      rw (behind_string-append word (1 ∷ (root ++ 0 ∷ rest)) h)
        (behind_string-append (1 ∷ root) rest (omega arith, k))

  word-IsText : (word : Bytes) → IsWord word → IsText word
  word-IsText [] h = elim h [ ]
  word-IsText (c ∷ s) h = h

  -- One rule in front of the others.
  find_rule-rule :
      (fuel : ℕ) (r : Rule) (rest : Bytes)
      → IsRule r
      → find_rule proc size path (suc fuel) (rule_bytes r ++ rest)
        ≡ choose
            (strbeginswith path (prefix_of size asked path r))
            (apply size asked path r)
            (find_rule proc size path fuel rest)
  unfolding resolution
  find_rule-rule fuel (allow word) rest h =
      ap (find_rule proc size path (suc fuel)) (append_assoc word (0 ∷ 0 ∷ 0 ∷ []) rest)
      ∙ find_rule-word fuel word (0 ∷ 0 ∷ rest) h
      ∙ choose-ap (strbeginswith path word) refl (
          ap (find_rule proc size path fuel)
            (next_rule-plain word rest 0 (word-IsText word h) refl))
  find_rule-rule fuel (redirect word root) rest h =
      let t = 1 ∷ (root ++ 0 ∷ rest) in
      ap (find_rule proc size path (suc fuel)) (
        append_assoc word (0 ∷ 1 ∷ (root ++ 0 ∷ [])) rest
        ∙ ap (λ x. word ++ 0 ∷ 1 ∷ x) (append_assoc root (0 ∷ []) rest))
      ∙ find_rule-word fuel word t h.0
      ∙ choose-ap (strbeginswith path word)
          (ap (λ x. redirect_to size x path) (string_at-append root rest (word-IsText root h.1)))
          (ap (find_rule proc size path fuel)
            (next_rule-redirect word root rest (word-IsText word h.0) (word-IsText root h.1)))
  find_rule-rule fuel (ask word) rest h =
      ap (find_rule proc size path (suc fuel)) (append_assoc word (0 ∷ 2 ∷ 0 ∷ []) rest)
      ∙ find_rule-word fuel word (2 ∷ 0 ∷ rest) h
      ∙ choose-ap (strbeginswith path word) refl (
          ap (find_rule proc size path fuel)
            (next_rule-plain word rest 2 (word-IsText word h) refl))

  find_rule-decide :
      (fuel : ℕ) (rs : List Rule)
      → AreRules rs
      → length rs < fuel
      → find_rule proc size path fuel (rules_bytes rs ++ 0 ∷ []) ≡ decide size asked path rs
  unfolding decide
  find_rule-decide zero rs h l = absurd (omega arith)
  find_rule-decide (suc fuel) [] h l = unfold find_rule in refl
  find_rule-decide (suc fuel) (r ∷ rs) h l =
      ap (find_rule proc size path (suc fuel))
        (append_assoc (rule_bytes r) (rules_bytes rs) (0 ∷ []))
      ∙ find_rule-rule fuel r (rules_bytes rs ++ 0 ∷ []) h.0
      ∙ choose-ap (strbeginswith path (prefix_of size asked path r)) refl
          (find_rule-decide fuel rs h.1 (omega arith))

length-rules : (rs : List Rule) → length rs ≤ length (rules_bytes rs)
length-rules [] = omega arith
length-rules (r ∷ rs) =
    omega (arith, length-rules rs, length-append (rule_bytes r) (rules_bytes rs), some_bytes r)
  where
    some_bytes : (r : Rule) → 0 < length (rule_bytes r)
    some_bytes (allow word) = omega (arith, length-append word (0 ∷ 0 ∷ 0 ∷ []))
    some_bytes (redirect word root) = omega (arith, length-append word (0 ∷ 1 ∷ (root ++ 0 ∷ [])))
    some_bytes (ask word) = omega (arith, length-append word (0 ∷ 2 ∷ 0 ∷ []))

-- A process whose filemap is the bytes of some rules, with the terminator that it adds itself, rules
-- on a path by the first rule whose beginning the cleaned, absolute path has: it is allowed, moved
-- below the new root, or as the server answers; and it is denied, with a report, if no rule fits.
pub is_in_sandbox-decide :
    (proc : Process) (size : Option ℕ) (path p : Bytes) (rs : List Rule)
    → AreRules rs
    → proc.filemap ≡ some (rules_bytes rs ++ 0 ∷ [])
    → absolute_path proc path ≡ some p
    → is_in_sandbox proc path size ≡ decide size (ask_for_dependency proc) (cleanup_path p) rs
unfolding is_in_sandbox
is_in_sandbox-decide proc size path p rs h e a =
    rw (is_in_sandbox, e, a)
      (find_rule-decide proc size (cleanup_path p) (suc (length (rules_bytes rs ++ 0 ∷ []))) rs h
        (omega (arith, length-rules rs, length-append (rules_bytes rs) (0 ∷ []))))
