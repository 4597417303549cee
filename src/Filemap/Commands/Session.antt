-- ===== src/Filemap/Commands/Session.antt =====
-- The subcommands of src/pextlib1.0/filemap.c as a caller sees them: `filemap get` after
-- `filemap set`.
use mac_ports_fork.CString.{Bytes}
use mac_ports_fork.Filemap.Access.{get, set}
use mac_ports_fork.Filemap.Access.Codes.{set_code, set_total}
use mac_ports_fork.Filemap.Access.GetSet.{get-set, is_success}
use mac_ports_fork.Filemap.Access.Keeps.{IsText}
use mac_ports_fork.Filemap.Commands.{keep_object, get_cmd, set_cmd}
use mac_ports_fork.Filemap.FilePath.{steps, AreNames, same_path, same_bytes_iff}
use mac_ports_fork.Filemap.Object.{
  FilemapObject, filemap, text, World, Status, tcl_ok, Run, answer, put_variable, result_from_code,
  with_object,
}
use mac_ports_fork.Filemap.Storage.{tree}
use mac_ports_fork.Filemap.Tree.{Subnodes, Code, success, name_max}
use mac_ports_fork.Filemap.Tree.Slots.{IsValid}
use mac_ports_fork.Prelude.{
  ◌<◌, List, [], ◌∷◌, some, true, false, ◌≡◌, refl, ap, ◌∙◌, arith, if◌then◌else◌, ◌&&◌, take_all,
  length,
}

abbrev words : Bytes → Bytes → Bytes → List Bytes → List Bytes
words command sub name rest = command ∷ sub ∷ name ∷ rest

with_object-found :
    (name : Bytes) (w : World) (o : FilemapObject) (body : FilemapObject → Run)
    → w.variables name ≡ some (filemap o)
    → with_object true name w body ≡ body o
unfolding with_object
with_object-found name w o body e = rw e

put_variable_self :
    (name : Bytes) (o : FilemapObject) (w : World)
    → (put_variable name (some (filemap o)) w).variables name ≡ some (filemap o)
unfolding put_variable
put_variable_self name o w = rw ((same_bytes_iff name name).1 refl) refl

result_variables : (code : Code) (w : World) → (result_from_code code w).1.variables ≡ w.variables
unfolding result_from_code
result_variables success w = refl
result_variables _ w = refl

-- What `filemap set` does to a writable map with a tree.
set_cmd-run :
    (command sub name key_path value : Bytes) (w : World) (o : FilemapObject) (key : Bytes)
    (t : Subnodes) {code : Code} {t' : Subnodes}
    → w.variables name ≡ some (filemap o)
    → o.is_read_only ≡ false
    → o.root ≡ tree key t
    → set t key_path value ≡ some (code, t')
    → set_cmd (words command sub name (key_path ∷ value ∷ [])) w
      ≡ some (
          result_from_code code
            (keep_object name (record o { root = tree key t'; is_dirty = true }) w))
unfolding set_cmd
set_cmd-run command sub name key_path value w o key t e r root ran =
    with_object-found name w o _ e ∙ rw (r, root, ran) refl

get_cmd-run :
    (command sub name key_path : Bytes) (w : World) (o : FilemapObject) (key : Bytes) (t : Subnodes)
    → w.variables name ≡ some (filemap o)
    → o.root ≡ tree key t
    → get_cmd (words command sub name (key_path ∷ [])) w
      ≡ some (tcl_ok, answer (text (get t key_path)) w)
unfolding get_cmd
get_cmd-run command sub name key_path w o key t e root =
    with_object-found name w o _ e ∙ rw root refl

-- For a writable map with a well-formed tree, a path whose elements fit and a text shorter than
-- NAME_MAX: `filemap set` returns, and whatever it answered, a following `filemap get` of the same
-- variable answers, for every path, the value just set if the path is the one that was set and the
-- code was success, and what the tree held before otherwise.
pub get_cmd-set_cmd :
    (command sub name key_path value : Bytes) (w : World) (o : FilemapObject) (key : Bytes)
    (t : Subnodes)
    → w.variables name ≡ some (filemap o)
    → o.is_read_only ≡ false
    → o.root ≡ tree key t
    → IsValid t
    → AreNames (steps key_path)
    → IsText value
    → length value < name_max
    → (status : Status) × (w' : World) × (set_cmd (words command sub name (key_path ∷ value ∷ [])) w
        ≡ some (status, w'))
      × ((other : Bytes)
          → get_cmd (words command sub name (other ∷ [])) w'
            ≡ some (
              tcl_ok,
              answer
                  (text (
                    if is_success (set_code (steps key_path) t)
                      && same_path (steps key_path) (steps other)
                    then some value
                    else get t other))
                  w',
            ))
get_cmd-set_cmd command sub name key_path value w o key t e r root v n text_value short =
    let (t', ran) = set_total t key_path value n short in
    let o' = record o { root = tree key t'; is_dirty = true } in
    let result = result_from_code (set_code (steps key_path) t) (keep_object name o' w) in
    (
      result.0,
      result.1,
      set_cmd-run command sub name key_path value w o key t e r root ran,
      λ other.
          get_cmd-run command sub name other result.1 o' key t'
            (ap (λ vars. vars name)
                (result_variables (set_code (steps key_path) t) (keep_object name o' w))
              ∙ put_variable_self name o' w)
            refl
          ∙ ap (λ x. some (tcl_ok, answer (text x) result.1))
              ((get-set t key_path value v n text_value ran).1 other
                ∙ ap
                    (λ x.
                      if is_success (set_code (steps key_path) t)
                        && same_path (steps key_path) (steps other)
                      then some x
                      else get t other)
                    (take_all name_max value (omega arith))),
    )
