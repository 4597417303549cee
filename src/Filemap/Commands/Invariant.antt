-- ===== src/Filemap/Commands/Invariant.antt =====
-- The subcommands of src/pextlib1.0/filemap.c: a map that is read-only is never dirty.
use mac_ports_fork.CString.{Bytes}
use mac_ports_fork.Filemap.Commands.{
  objv_at, keep_object, on_disk, save_root, then_drop, close_cmd, create_cmd, exists_cmd, get_cmd,
  is_read_only_cmd, list_cmd, Locked, locked, refused, take_lock, lock_path, opened_object,
  open_locked, open_cmd, reload, revert_cmd, save_cmd, changed, set_cmd, unset_cmd, Subcommand,
  filemap_close, filemap_create, filemap_exists, filemap_get, filemap_list, filemap_open,
  filemap_revert, filemap_save, filemap_set, filemap_unset, filemap_is_read_only, run_subcommand,
  filemap_cmd, readonly_word,
}
use mac_ports_fork.Filemap.Commands.Frames.{
  CleanWorld, CodedClean, ReadOnlyIsClean, EndsClean, put_variable-clean, drop_variable-clean,
  assign_clean, result_clean, with_object-clean, with_tree-clean, either, either_by,
}
use mac_ports_fork.Filemap.Disk.{Disk}
use mac_ports_fork.Filemap.FilePath.{same_bytes}
use mac_ports_fork.Filemap.Object.{
  FilemapObject, Reply, World, tcl_ok, tcl_error, Run, answer, result_from_code, outcome_code,
  outcome_disk, drop_variable, assign,
}
use mac_ports_fork.Filemap.Storage.{Root, tree, null, broken, load, save}
use mac_ports_fork.Filemap.Tree.{Subnodes, Code, success, unknown_option, eperm}
use mac_ports_fork.Prelude.{
  List, Option, none, some, Bool, true, false, ◌≡◌, refl, ltb, length, ◌==◌, not, ◌&&◌, ◌||◌,
}

-- Each subcommand in turn.
module _ (w : World) (h : ReadOnlyIsClean w.variables) where
  then_drop-clean :
      (name : Bytes) (r : Option (Code × World)) → CodedClean r → EndsClean (then_drop name r)
  then_drop-clean name none c = tt
  then_drop-clean name (some (code, w')) c =
      at_world (drop_variable name (result_from_code code w').1)
        (drop_variable-clean name (result_from_code code w').1 (result_clean code w' c))
    where
      at_world :
          (m : Option World)
          → CleanWorld m
          → EndsClean (elim m [ none ↦ none | some w'' ↦ some ((result_from_code code w').0, w'') ])
      at_world none x = tt
      at_world (some w'') x = x

  save_root-clean : (o : FilemapObject) → CodedClean (save_root o w)
  unfolding save_root
  save_root-clean o = at_root o.root
    where
      at_root :
          (root : Root)
          → CodedClean (elim root [
            | tree key t ↦
                let saved = save o.filemap_path key t w.disk in
                some (outcome_code saved, on_disk (outcome_disk saved) w)
            | null ↦ none
            | broken ↦ none
          ])
      at_root (tree key t) = h
      at_root null = tt
      at_root broken = tt

  close_clean : (objv : List Bytes) → EndsClean (close_cmd objv w)
  close_clean objv =
      unfold close_cmd in
      (with_object-clean (length objv == 3) (objv_at objv 2) w _ h λ o e.
        then_drop-clean (objv_at objv 2) _ (
          either CodedClean (not o.is_dirty || o.is_ram_only) {x = some (success, w)} h
            (save_root-clean o)))

  create_clean : (objv : List Bytes) → EndsClean (create_cmd objv w)
  unfolding create_cmd
  create_clean objv =
      either EndsClean (length objv == 3)
        (at_world _ (assign_clean (objv_at objv 2) _ w (λ e. refl) h)) h
    where
      at_world :
          (m : Option World)
          → CleanWorld m
          → EndsClean (elim m [ none ↦ none | some w' ↦ some (tcl_ok, w') ])
      at_world none x = tt
      at_world (some w') x = x

  exists_clean : (objv : List Bytes) → EndsClean (exists_cmd objv w)
  unfolding exists_cmd
  exists_clean objv =
      with_object-clean (length objv == 4) (objv_at objv 2) w _ h
        λ o e. with_tree-clean o.root _ λ key t. h

  get_clean : (objv : List Bytes) → EndsClean (get_cmd objv w)
  unfolding get_cmd
  get_clean objv =
      with_object-clean (length objv == 4) (objv_at objv 2) w _ h
        λ o e. with_tree-clean o.root _ λ key t. h

  list_clean : (objv : List Bytes) → EndsClean (list_cmd objv w)
  unfolding list_cmd
  list_clean objv =
      with_object-clean (length objv == 4) (objv_at objv 2) w _ h
        λ o e. with_tree-clean o.root _ λ key t. h

  is_read_only_clean : (objv : List Bytes) → EndsClean (is_read_only_cmd objv w)
  unfolding is_read_only_cmd
  is_read_only_clean objv = with_object-clean (length objv == 3) (objv_at objv 2) w _ h λ o e. h

  open_locked-clean :
      (name path : Bytes) (read_only : Bool) (r : Option (Code × Root × Disk))
      → EndsClean (open_locked name path read_only r w)
  unfolding open_locked
  open_locked-clean name path read_only none = tt
  open_locked-clean name path read_only (some (success, root, d)) =
      at_world (assign name (opened_object path read_only root) (on_disk d w))
        (assign_clean name _ (on_disk d w) (λ e. refl) h)
    where
      at_world :
          (m : Option World)
          → CleanWorld m
          → EndsClean (elim m [ none ↦ none | some w' ↦ some (result_from_code success w') ])
      at_world none x = tt
      at_world (some w') x = result_clean success w' x
  open_locked-clean name path read_only (some (code, broken, d)) = tt
  open_locked-clean name path read_only (some (code, null, d)) = result_clean code (on_disk d w) h
  open_locked-clean name path read_only (some (code, tree key t, d)) =
      result_clean code (on_disk d w) h

  open_clean : (objv : List Bytes) → EndsClean (open_cmd objv w)
  open_clean objv =
      unfold open_cmd in
      (either EndsClean (not (length objv == 4) && not (length objv == 5)) h (
        either EndsClean (length objv == 5 && not (same_bytes (objv_at objv 4) readonly_word))
          (result_clean unknown_option w h)
          (at_lock (take_lock (lock_path (objv_at objv 3)) (length objv == 5) w.disk))))
    where
      at_lock :
          (l : Locked)
          → EndsClean (elim l [
            | refused code d ↦ some (result_from_code code (on_disk d w))
            | locked read_only d ↦
                open_locked (objv_at objv 2) (objv_at objv 3) read_only (load (objv_at objv 3) d) w
          ])
      at_lock (refused code d) = result_clean code (on_disk d w) h
      at_lock (locked read_only d) = open_locked-clean (objv_at objv 2) (objv_at objv 3) read_only _

  reload_clean :
      (name : Bytes) (o : FilemapObject) (r : Option (Code × Root × Disk))
      → EndsClean (reload name o r w)
  reload_clean name o none = tt
  reload_clean name o (some (code, root, d)) =
      let kept =
        put_variable-clean name (record o { root = root; is_dirty = false }) (on_disk d w)
          (λ e. refl) h in
      result_clean code _ kept

  revert_clean : (objv : List Bytes) → EndsClean (revert_cmd objv w)
  unfolding revert_cmd
  revert_clean objv = with_object-clean (length objv == 3) (objv_at objv 2) w _ h λ o e.
      either EndsClean o.is_ram_only h (
        at_root (reload (objv_at objv 2) o (load o.filemap_path w.disk) w)
          (reload_clean (objv_at objv 2) o _) o.root)
    where
      at_root :
          (run : Run)
          → EndsClean run
          → (root : Root) → EndsClean (elim root [ broken ↦ none | null ↦ run | tree key t ↦ run ])
      at_root run c broken = tt
      at_root run c null = c
      at_root run c (tree key t) = c

  save_clean : (objv : List Bytes) → EndsClean (save_cmd objv w)
  save_clean objv =
      unfold save_cmd in
      (with_object-clean (length objv == 3) (objv_at objv 2) w _ h λ o e.
        either EndsClean o.is_ram_only h
          (either EndsClean o.is_dirty (at_code o (save_root o w) (save_root-clean o)) h))
    where
      at_code :
          (o : FilemapObject) (r : Option (Code × World))
          → CodedClean r
          → EndsClean (elim r [
            | none ↦ none
            | some (code, w') ↦ some (
                result_from_code code
                  (keep_object (objv_at objv 2) (record o { is_dirty = false }) w'))
          ])
      at_code o none c = tt
      at_code o (some (code, w')) c =
          result_clean code _ (put_variable-clean (objv_at objv 2) _ w' (λ e. refl) c)

  changed_clean :
      (name : Bytes) (o : FilemapObject) (key : Bytes) (r : Option (Code × Subnodes))
      → o.is_read_only ≡ false
      → EndsClean (changed name o key w r)
  changed_clean name o key none f = tt
  changed_clean name o key (some (code, t)) f = result_clean code _ (
      put_variable-clean name (record o { root = tree key t; is_dirty = true }) w (λ e. cc (e, f))
        h)

  set_clean : (objv : List Bytes) → EndsClean (set_cmd objv w)
  unfolding set_cmd
  set_clean objv = with_object-clean (length objv == 5) (objv_at objv 2) w _ h λ o e.
      either_by EndsClean o.is_read_only (λ _. result_clean eperm w h)
        λ f. with_tree-clean o.root _ λ key t. changed_clean (objv_at objv 2) o key _ f

  unset_clean : (objv : List Bytes) → EndsClean (unset_cmd objv w)
  unfolding unset_cmd
  unset_clean objv = with_object-clean (length objv == 4) (objv_at objv 2) w _ h λ o e.
      either_by EndsClean o.is_read_only (λ _. result_clean eperm w h)
        λ f. with_tree-clean o.root _ λ key t. changed_clean (objv_at objv 2) o key _ f

  run_subcommand-clean :
      (sub : Subcommand) (objv : List Bytes) → EndsClean (run_subcommand sub objv w)
  unfolding run_subcommand
  run_subcommand-clean filemap_close = close_clean
  run_subcommand-clean filemap_create = create_clean
  run_subcommand-clean filemap_exists = exists_clean
  run_subcommand-clean filemap_get = get_clean
  run_subcommand-clean filemap_list = list_clean
  run_subcommand-clean filemap_open = open_clean
  run_subcommand-clean filemap_revert = revert_clean
  run_subcommand-clean filemap_save = save_clean
  run_subcommand-clean filemap_set = set_clean
  run_subcommand-clean filemap_unset = unset_clean
  run_subcommand-clean filemap_is_read_only = is_read_only_clean

-- Whatever the words of a `filemap` call are, whatever its system calls return and however Tcl looks
-- the subcommand up: if no variable holds a map that is both read-only and dirty before it, none
-- does after it, where the call ends without a memory error.
pub filemap_cmd-clean :
    (index : Bytes → Option Subcommand) (objv : List Bytes) (w : World)
    → ReadOnlyIsClean w.variables
    → EndsClean (filemap_cmd index objv w)
filemap_cmd-clean index objv w h =
    unfold filemap_cmd in
    (either EndsClean (ltb (length objv) 3) h (at_index (index (objv_at objv 1))))
  where
    at_index :
        (o : Option Subcommand)
        → EndsClean (elim o [
          | none ↦ some (tcl_error, answer Reply.bad_option w)
          | some sub ↦ run_subcommand sub objv w
        ])
    at_index none = h
    at_index (some sub) = run_subcommand-clean w h sub objv
