-- ===== src/Filemap/Object.antt =====
-- The Tcl side of src/pextlib1.0/filemap.c: the objects behind filemap variables, and the
-- subcommands of the `filemap` command. A filemap object is held by the variable that it was made
-- for; `Tcl_UnsetVar` and a new value of the variable drop it.
use mac_ports_fork.CString.{Bytes}
use mac_ports_fork.Filemap.Disk.{Disk, Outcome, finished, broke}
use mac_ports_fork.Filemap.FilePath.{same_bytes}
use mac_ports_fork.Filemap.Storage.{Root, tree, null, broken}
use mac_ports_fork.Filemap.Tree.{Subnodes, Code, success}
use mac_ports_fork.Prelude.{ℕ, ◌+◌, ◌-◌, List, Option, none, some, Bool, if◌then◌else◌, ◌==◌}

-- `SFilemapObject`. The lock is the path of the lock file, if one is open.
pub record FilemapObject : Type 0 where
  pub ref_count : ℕ
  pub filemap_path : Bytes
  pub lock : Option Bytes
  pub root : Root
  pub is_read_only : Bool
  pub is_dirty : Bool
  pub is_ram_only : Bool

-- A variable's value: a filemap, or an object of another type.
pub data Value : Type 0 where
  filemap : FilemapObject → Value
  other_type : Value

-- The result that a command leaves in the interpreter.
pub data Reply : Type 0 where
  wrong_args no_variable not_a_filemap not_supported : Reply
  empty : Reply
  coded : Code → Reply
  boolean : Bool → Reply
  text : Option Bytes → Reply
  texts : List Bytes → Reply
  bad_option : Reply

-- The interpreter's variables, the result, and the disk.
pub record World : Type 0 where
  pub variables : Bytes → Option Value
  pub reply : Reply
  pub disk : Disk

-- TCL_OK or TCL_ERROR with the new world; `none` is a memory error of the C code.
pub data Status : Type 0 where
  tcl_ok tcl_error : Status

abbrev pub Run : Type 0
Run = Option (Status × World)

abbrev pub answer : Reply → World → World
answer r w = record w { reply = r }

unfoldable pub put_variable : Bytes → Option Value → World → World
put_variable name value w = record w {
  variables = λ n. if same_bytes name n then value else w.variables n;
}

-- `SetResultFromErrorCode`.
unfoldable pub result_from_code : Code → World → Status × World
result_from_code success w = (tcl_ok, answer empty w)
result_from_code code w = (tcl_error, answer (coded code) w)

-- `FreeFilemapInternalRep`: `none` where `Free` follows pointers that are none. The last reference
-- gives the lock up. The second part tells whether the object is still in use.
unfoldable pub free_internal_rep : FilemapObject → Option (Option FilemapObject)
free_internal_rep o =
    let left = o.ref_count - 1 in
    if left == 0
    then elim o.root [ tree key t ↦ some none | null ↦ some none | broken ↦ none ]
    else some (some (record o { ref_count = left }))

-- `DupFilemapInternalRep`: the copy shares the object.
unfoldable pub dup_internal_rep : FilemapObject → FilemapObject
dup_internal_rep o = record o { ref_count = o.ref_count + 1 }

-- `SetFilemapFromAny` always fails.
unfoldable pub set_from_any : World → Status × World
set_from_any w = (tcl_error, answer not_supported w)

-- `GetObjectFromVarName`: the object, or the world with the message.
pub data Found : Type 0 where
  found : FilemapObject → Found
  missing : World → Found

abbrev pub object_of : Option Value → World → Found
object_of none w = missing (answer no_variable w)
object_of (some (filemap o)) w = found o
object_of (some other_type) w = missing (answer not_a_filemap w)

unfoldable pub object_from_name : Bytes → World → Found
object_from_name name w = object_of (w.variables name) w

-- What most subcommands begin with: the count of words, then the object.
abbrev pub with_found : Found → (FilemapObject → Run) → Run
with_found (missing w) body = some (tcl_error, w)
with_found (found o) body = body o

unfoldable pub with_object : Bool → Bytes → World → (FilemapObject → Run) → Run
unfolding object_from_name
with_object enough name w body =
    if enough
    then with_found (object_from_name name w) body
    else some (tcl_error, answer wrong_args w)

-- A subcommand that reads or writes the tree needs one.
abbrev pub with_tree : Root → (Bytes → Subnodes → Run) → Run
with_tree (tree key t) body = body key t
with_tree null body = none
with_tree broken body = none

abbrev pub coded_run : Option (Code × World) → Run
coded_run none = none
coded_run (some (code, w)) = some (result_from_code code w)

-- The value that a variable held is dropped, with its last reference.
unfoldable pub drop_variable : Bytes → World → Option World
unfolding free_internal_rep put_variable
drop_variable name w = elim (w.variables name) [
  | none ↦ some w
  | some value ↦ elim value [
    | other_type ↦ some (put_variable name none w)
    | filemap o ↦ elim (free_internal_rep o) [
      | none ↦ none
      | some left ↦ some (put_variable name none w)
    ]
  ]
]

unfoldable pub assign : Bytes → FilemapObject → World → Option World
unfolding drop_variable put_variable
assign name o w = elim (drop_variable name w) [
  | none ↦ none
  | some w' ↦ some (put_variable name (some (filemap o)) w')
]

abbrev pub outcome_code : Outcome → Code
outcome_code (finished d) = success
outcome_code (broke code d) = code

abbrev pub outcome_disk : Outcome → Disk
outcome_disk (finished d) = d
outcome_disk (broke code d) = d
