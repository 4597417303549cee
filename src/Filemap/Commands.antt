-- ===== src/Filemap/Commands.antt =====
-- The subcommands of `filemap` in src/pextlib1.0/filemap.c, `FilemapCloseCmd` to `FilemapUnsetCmd`,
-- and `FilemapCmd`, which chooses among them. `objv` has all the words of the call.
pub mod Frames
pub mod Invariant
pub mod Session
use mac_ports_fork.CString.{Bytes}
use mac_ports_fork.Filemap.Access.{get, set, delete, list_paths}
use mac_ports_fork.Filemap.Disk.{
  Attempt, works, fails, Disk, first, spend, put_file, content_of, Outcome, finished, broke,
}
use mac_ports_fork.Filemap.FilePath.{same_bytes}
use mac_ports_fork.Filemap.Object.{
  FilemapObject, Value, filemap, Reply, wrong_args, empty, boolean, text, texts, bad_option, World,
  Status, tcl_ok, tcl_error, Run, answer, put_variable, result_from_code, with_object, with_tree,
  coded_run, drop_variable, assign, outcome_code, outcome_disk,
}
use mac_ports_fork.Filemap.Storage.{Root, tree, null, broken, save, load, path_max}
use mac_ports_fork.Filemap.Tree.{Subnodes, nil, Code, success, unknown_option, eperm, eacces}
use mac_ports_fork.Prelude.{
  ℕ, ◌-◌, List, [], ◌∷◌, ◌++◌, Option, none, some, Bool, true, false, not, ◌&&◌, ◌||◌,
  if◌then◌else◌, ltb, ◌==◌, length, take, get_or,
}

abbrev pub objv_at : List Bytes → ℕ → Bytes
objv_at objv i = get_or objv i []

-- An object that a command has changed is the one that the variable holds.
abbrev pub keep_object : Bytes → FilemapObject → World → World
keep_object name o w = put_variable name (some (filemap o)) w

abbrev pub on_disk : Disk → World → World
on_disk d w = record w { disk = d }

unfoldable pub save_root : FilemapObject → World → Option (Code × World)
save_root o w = elim o.root [
  | tree key t ↦
      let saved = save o.filemap_path key t w.disk in
      some (outcome_code saved, on_disk (outcome_disk saved) w)
  | null ↦ none
  | broken ↦ none
]

abbrev pub then_drop : Bytes → Option (Code × World) → Run
then_drop name none = none
then_drop name (some (code, w)) =
    let result = result_from_code code w in
    elim (drop_variable name result.1) [ none ↦ none | some w' ↦ some (result.0, w') ]

-- `FilemapCloseCmd`: the variable is unset whatever `Save` returned.
unfoldable pub close_cmd : List Bytes → World → Run
unfolding save_root
close_cmd objv w =
    let name = objv_at objv 2 in
    with_object (length objv == 3) name w λ o.
      then_drop name (if not o.is_dirty || o.is_ram_only then some (success, w) else save_root o w)

unfoldable pub create_cmd : List Bytes → World → Run
create_cmd objv w =
    let made =
      assign (objv_at objv 2)
        (record {
          ref_count = 1;
          filemap_path = [];
          lock = none;
          root = tree [] nil;
          is_read_only = false;
          is_dirty = false;
          is_ram_only = true;
        })
        w in
    if length objv == 3
    then elim made [ none ↦ none | some w' ↦ some (tcl_ok, w') ]
    else some (tcl_error, answer wrong_args w)

abbrev pub is_some : Option Bytes → Bool
is_some none = false
is_some (some v) = true

unfoldable pub exists_cmd : List Bytes → World → Run
exists_cmd objv w = with_object (length objv == 4) (objv_at objv 2) w λ o.
    with_tree o.root λ key t. some (tcl_ok, answer (boolean (is_some (get t (objv_at objv 3)))) w)

unfoldable pub get_cmd : List Bytes → World → Run
get_cmd objv w =
    with_object (length objv == 4) (objv_at objv 2) w
      λ o. with_tree o.root λ key t. some (tcl_ok, answer (text (get t (objv_at objv 3))) w)

unfoldable pub is_read_only_cmd : List Bytes → World → Run
is_read_only_cmd objv w =
    with_object (length objv == 3) (objv_at objv 2) w
      λ o. some (tcl_ok, answer (boolean o.is_read_only) w)

unfoldable pub list_cmd : List Bytes → World → Run
list_cmd objv w = with_object (length objv == 4) (objv_at objv 2) w λ o.
    with_tree o.root λ key t. some (tcl_ok, answer (texts (list_paths key t (objv_at objv 3))) w)

-- How `FilemapOpenCmd` gets its lock: with the flag for read-only, or the error.
pub data Locked : Type 0 where
  locked : Bool → Disk → Locked
  refused : Code → Disk → Locked

-- `open` of the lock file with O_CREAT, then `fcntl` with F_SETLKW.
unfoldable pub lock_attempt : Bytes → Bool → (Code → Disk → Locked) → Disk → Locked
lock_attempt path read_only otherwise d =
    let opened = put_file path (some (content_of (d.files path))) (spend d) in
    elim (first d.attempts) [
      | fails code n ↦ otherwise code (spend d)
      | works ↦ elim (first opened.attempts) [
        | fails code n ↦ refused code (spend opened)
        | works ↦ locked read_only (spend opened)
      ]
    ]

-- Without the permission to write the lock file, the map is opened read-only.
abbrev pub unless_denied : Bytes → Code → Disk → Locked
unless_denied path eacces d = lock_attempt path true refused d
unless_denied path code d = refused code d

unfoldable pub take_lock : Bytes → Bool → Disk → Locked
unfolding lock_attempt
take_lock path read_only d =
    if read_only
    then lock_attempt path true refused d
    else lock_attempt path false (unless_denied path) d

-- "%s.lock" in a buffer of PATH_MAX bytes.
unfoldable pub lock_path : Bytes → Bytes
lock_path path = take (path_max - 2) (path ++ b'.' ∷ b'l' ∷ b'o' ∷ b'c' ∷ b'k' ∷ [])

abbrev pub readonly_word : Bytes
readonly_word = b'r' ∷ b'e' ∷ b'a' ∷ b'd' ∷ b'o' ∷ b'n' ∷ b'l' ∷ b'y' ∷ []

-- The object of a map that was opened.
abbrev pub opened_object : Bytes → Bool → Root → FilemapObject
opened_object path read_only root = record {
  ref_count = 1;
  filemap_path = take path_max path;
  lock = some (lock_path path);
  root = root;
  is_read_only = read_only;
  is_dirty = false;
  is_ram_only = false;
}

-- After the lock: the tree is loaded, and freed again if that fails.
unfoldable pub open_locked : Bytes → Bytes → Bool → Option (Code × Root × Disk) → World → Run
open_locked name path read_only none w = none
open_locked name path read_only (some (success, root, d)) w =
    elim (assign name (opened_object path read_only root) (on_disk d w)) [
      | none ↦ none
      | some w' ↦ some (result_from_code success w')
    ]
open_locked name path read_only (some (code, broken, d)) w = none
open_locked name path read_only (some (code, root, d)) w =
    some (result_from_code code (on_disk d w))

unfoldable pub open_cmd : List Bytes → World → Run
unfolding take_lock lock_path open_locked
open_cmd objv w =
    let path = objv_at objv 3 in
    let words = length objv in
    let run : Run = elim (take_lock (lock_path path) (words == 5) w.disk) [
      | refused code d ↦ some (result_from_code code (on_disk d w))
      | locked read_only d ↦ open_locked (objv_at objv 2) path read_only (load path d) w
    ] in
    if not (words == 4) && not (words == 5)
    then some (tcl_error, answer wrong_args w)
    else if words == 5 && not (same_bytes (objv_at objv 4) readonly_word)
    then some (result_from_code unknown_option w)
    else run

-- `Free`, then `Load` into the same pointer.
abbrev pub reload : Bytes → FilemapObject → Option (Code × Root × Disk) → World → Run
reload name o none w = none
reload name o (some (code, root, d)) w = some (
    result_from_code code
      (keep_object name (record o { root = root; is_dirty = false }) (on_disk d w)))

unfoldable pub revert_cmd : List Bytes → World → Run
revert_cmd objv w =
    let name = objv_at objv 2 in
    with_object (length objv == 3) name w λ o.
      let run = reload name o (load o.filemap_path w.disk) w in
      if o.is_ram_only
      then some (tcl_error, w)
      else elim o.root [ broken ↦ none | null ↦ run | tree key t ↦ run ]

-- `FilemapSaveCmd`: the map counts as clean afterwards, also if `Save` returned an error.
unfoldable pub save_cmd : List Bytes → World → Run
unfolding save_root
save_cmd objv w =
    let name = objv_at objv 2 in
    with_object (length objv == 3) name w λ o.
      let run : Run = elim (save_root o w) [
        | none ↦ none
        | some (code, w') ↦
            some (result_from_code code (keep_object name (record o { is_dirty = false }) w'))
      ] in
      if o.is_ram_only
      then some (tcl_error, w)
      else if o.is_dirty
      then run
      else some (tcl_ok, answer empty w)

-- What `Set` or `Delete` left of the tree, in the object, which is then dirty.
abbrev pub changed : Bytes → FilemapObject → Bytes → World → Option (Code × Subnodes) → Run
changed name o key w none = none
changed name o key w (some (code, t)) =
    some
      (result_from_code code (keep_object name (record o { root = tree key t; is_dirty = true }) w))

unfoldable pub set_cmd : List Bytes → World → Run
set_cmd objv w =
    let name = objv_at objv 2 in
    with_object (length objv == 5) name w λ o.
      let run =
        with_tree o.root λ key t. changed name o key w (set t (objv_at objv 3) (objv_at objv 4)) in
      if o.is_read_only then some (result_from_code eperm w) else run

unfoldable pub unset_cmd : List Bytes → World → Run
unset_cmd objv w =
    let name = objv_at objv 2 in
    with_object (length objv == 4) name w λ o.
      let run = with_tree o.root λ key t. changed name o key w (delete t (objv_at objv 3)) in
      if o.is_read_only then some (result_from_code eperm w) else run

pub data Subcommand : Type 0 where
  filemap_close filemap_create filemap_exists filemap_get filemap_list filemap_open : Subcommand
  filemap_revert filemap_save filemap_set filemap_unset filemap_is_read_only : Subcommand

unfoldable pub run_subcommand : Subcommand → List Bytes → World → Run
run_subcommand filemap_close = close_cmd
run_subcommand filemap_create = create_cmd
run_subcommand filemap_exists = exists_cmd
run_subcommand filemap_get = get_cmd
run_subcommand filemap_list = list_cmd
run_subcommand filemap_open = open_cmd
run_subcommand filemap_revert = revert_cmd
run_subcommand filemap_save = save_cmd
run_subcommand filemap_set = set_cmd
run_subcommand filemap_unset = unset_cmd
run_subcommand filemap_is_read_only = is_read_only_cmd

-- `FilemapCmd`. `index` is Tcl's `Tcl_GetIndexFromObj` over the table of subcommands.
unfoldable pub filemap_cmd : (Bytes → Option Subcommand) → List Bytes → World → Run
unfolding run_subcommand
filemap_cmd index objv w =
    if ltb (length objv) 3
    then some (tcl_error, answer wrong_args w)
    else elim (index (objv_at objv 1)) [
      | none ↦ some (tcl_error, answer bad_option w)
      | some sub ↦ run_subcommand sub objv w
    ]
