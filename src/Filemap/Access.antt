-- ===== src/Filemap/Access.antt =====
-- `Set`, `Get`, `Delete`, `List` and `ListSubtree` of src/pextlib1.0/filemap.c. A result of `none` is
-- a memory error of the C code: a key too long for `fKeySubpart`, a value without a terminator, or a
-- leaf that is read as a node.
pub mod Keeps
pub mod GetSet
pub mod GetDelete
pub mod Codes
use mac_ports_fork.CString.{Bytes, strcasecmp}
use mac_ports_fork.Filemap.FilePath.{Steps, stop, file, dir, steps}
use mac_ports_fork.Filemap.Tree.{
  Subnodes, nil, leaf, node, Slot, absent, is_leaf, is_node, Code, success, key_not_found, eisdir,
  enotdir, locate, update, count, SlotStep, name_max,
}
use mac_ports_fork.Prelude.{
  ℕ, Bool, true, false, ◌||◌, List, [], ◌∷◌, ◌++◌, Option, none, some, ltb, leb, ◌==◌,
  if◌then◌else◌, length, take, Ordering,
}

-- `fValue` of a slot, for a slot that is a file.
unfoldable pub leaf_value : Slot → Option Bytes
leaf_value (is_leaf value ended) = some value
leaf_value _ = none

-- `Get` in a slot, for a slot that is a node; `inner` is the recursive call.
unfoldable pub node_value : (Subnodes → Option Bytes) → Slot → Option Bytes
node_value inner (is_node subs) = inner subs
node_value inner _ = none

-- `Get` below the root.
unfoldable pub get_in : Steps → Subnodes → Option Bytes
unfolding leaf_value node_value locate
get_in stop t = none
get_in (file part) t = leaf_value (locate part t)
get_in (dir part rest) t = node_value (get_in rest) (locate part t)

unfoldable pub get : Subnodes → Bytes → Option Bytes
unfolding get_in steps
get root path = get_in (steps path) root

-- `strncpy` of a value into `fValue`, whose last byte it leaves alone.
unfoldable pub copy_value : Bytes → Bool → Option (Code × Slot)
copy_value value ended =
    if ended || ltb (length value) name_max
    then some (success, is_leaf (take name_max value) ended)
    else none

-- The element at the end of the path. A new leaf is written if its key fits.
unfoldable pub set_file : Bytes → Bytes → SlotStep
unfolding copy_value
set_file part value absent = if leb (length part) name_max then copy_value value true else none
set_file part value (is_leaf old ended) = copy_value value ended
set_file part value (is_node subs) = some (eisdir, is_node subs)

abbrev pub as_node : Option (Code × Subnodes) → Option (Code × Slot)
as_node none = none
as_node (some (code, subs)) = some (code, is_node subs)

-- An element with more behind it; `inner` is the recursive call. A new node stays, also if the
-- call below it returns an error.
unfoldable pub set_dir : Bytes → (Subnodes → Option (Code × Subnodes)) → SlotStep
set_dir part inner absent =
    let made = as_node (inner nil) in if leb (length part) name_max then made else none
set_dir part inner (is_leaf old ended) = some (enotdir, is_leaf old ended)
set_dir part inner (is_node subs) = as_node (inner subs)

-- `Set` below the root.
unfoldable pub set_in : Steps → Bytes → Subnodes → Option (Code × Subnodes)
unfolding set_file set_dir update
set_in stop value t = some (eisdir, t)
set_in (file part) value t = update part (set_file part value) t
set_in (dir part rest) value t = update part (set_dir part (set_in rest value)) t

unfoldable pub set : Subnodes → Bytes → Bytes → Option (Code × Subnodes)
unfolding set_in steps
set root path value = set_in (steps path) value root

-- The element at the end of the path: whatever the slot holds is removed.
unfoldable pub delete_file : SlotStep
delete_file absent = some (key_not_found, absent)
delete_file (is_leaf value ended) = some (success, absent)
delete_file (is_node subs) = some (success, absent)

-- The slot that a node leaves: it is pruned when it has no subnodes.
unfoldable pub prune : Subnodes → Slot
prune subs = if count subs == 0 then absent else is_node subs

abbrev pub pruned : Option (Code × Subnodes) → Option (Code × Slot)
pruned none = none
pruned (some (code, subs)) = some (code, prune subs)

-- An element with more behind it; the kind of the slot is not looked at.
unfoldable pub delete_dir : (Subnodes → Option (Code × Subnodes)) → SlotStep
unfolding prune count
delete_dir inner absent = some (key_not_found, absent)
delete_dir inner (is_leaf value ended) = none
delete_dir inner (is_node subs) = pruned (inner subs)

-- `Delete` below the root.
unfoldable pub delete_in : Steps → Subnodes → Option (Code × Subnodes)
unfolding delete_file delete_dir update
delete_in stop t = some (eisdir, t)
delete_in (file part) t = update part delete_file t
delete_in (dir part rest) t = update part (delete_dir (delete_in rest)) t

unfoldable pub delete : Subnodes → Bytes → Option (Code × Subnodes)
unfolding delete_in steps
delete root path = delete_in (steps path) root

-- `ListSubtree` over the subnodes of one node, whose path is `path`.
unfoldable pub list_subnodes : Bytes → Bytes → Subnodes → List Bytes
list_subnodes value path nil = []
list_subnodes value path (leaf key w ended rest) =
    let later = list_subnodes value path rest in
    elim (strcasecmp w value) [
      | Ordering.lt ↦ later
      | Ordering.eq ↦ (path ++ key) ∷ later
      | Ordering.gt ↦ later
    ]
list_subnodes value path (node key subs rest) =
    list_subnodes value (path ++ (key ++ b'/' ∷ [])) subs ++ list_subnodes value path rest

-- `List`, for a root with this key.
unfoldable pub list_paths : Bytes → Subnodes → Bytes → List Bytes
unfolding list_subnodes
list_paths key root value = list_subnodes value (key ++ b'/' ∷ []) root
