-- ===== src/Filemap/Access/Codes.antt =====
-- Which code `Set` and `Delete` of src/pextlib1.0/filemap.c return, and when they run into a memory
-- error, by looking along the path without changing anything.
use mac_ports_fork.CString.{Bytes}
use mac_ports_fork.Filemap.Access.{
  copy_value, set_file, set_dir, set_in, as_node, delete_file, delete_dir, delete_in, pruned, set,
  delete,
}
use mac_ports_fork.Filemap.FilePath.{Steps, stop, file, dir, steps, AreNames}
use mac_ports_fork.Filemap.Tree.{
  Subnodes, nil, leaf, node, Slot, absent, is_leaf, is_node, Code, success, eisdir, enotdir,
  key_not_found, locate, update, put_back, keep_leaf, keep_node, SlotStep, name_max,
}
use mac_ports_fork.Prelude.{suc, ◌≡◌, ◌<◌, refl, ◌∙◌, arith, some, none, Option, length, Bool}

abbrev pub code_of : Option (Code × Subnodes) → Option Code
code_of none = none
code_of (some (code, t)) = some code

abbrev slot_code : Option (Code × Slot) → Option Code
slot_code none = none
slot_code (some (code, s)) = some code

put_back_code :
    (k : Bytes) (t : Subnodes) (o : Option (Code × Slot)) → code_of (put_back k t o) ≡ slot_code o
put_back_code k t none = refl
put_back_code k t (some (code, s)) = refl

keep_leaf_code :
    (k w : Bytes) (b : Bool) (o : Option (Code × Subnodes))
    → code_of (keep_leaf k w b o) ≡ code_of o
keep_leaf_code k w b none = refl
keep_leaf_code k w b (some (code, t)) = refl

keep_node_code :
    (k : Bytes) (c : Subnodes) (o : Option (Code × Subnodes))
    → code_of (keep_node k c o) ≡ code_of o
keep_node_code k c none = refl
keep_node_code k c (some (code, t)) = refl

as_node_code : (o : Option (Code × Subnodes)) → slot_code (as_node o) ≡ code_of o
as_node_code none = refl
as_node_code (some (code, t)) = refl

pruned_code : (o : Option (Code × Subnodes)) → slot_code (pruned o) ≡ code_of o
pruned_code none = refl
pruned_code (some (code, t)) = refl

-- An update returns what its step returns at the slot that the plain scan finds.
update_code :
    (p : Bytes) (step : SlotStep) (t : Subnodes)
    → code_of (update p step t) ≡ slot_code (step (locate p t))
unfolding update locate
update_code p step nil = put_back_code p nil (step absent)
update_code p step (leaf k w b r) = ground (
  arith,
  update_code p step r,
  keep_leaf_code k w b (update p step r),
  put_back_code k r (step (is_leaf w b)),
  put_back_code p (leaf k w b r) (step absent),
)
update_code p step (node k c r) = ground (
  arith,
  update_code p step r,
  keep_node_code k c (update p step r),
  put_back_code k r (step (is_node c)),
  put_back_code p (node k c r) (step absent),
)

-- The code of `Set` along a path.
abbrev pub set_code : Steps → Subnodes → Code
set_code stop t = eisdir
set_code (file p) t = elim (locate p t) [ is_node c ↦ eisdir | _ ↦ success ]
set_code (dir p s) t = elim (locate p t) [
  | absent ↦ set_code s nil
  | is_leaf w b ↦ enotdir
  | is_node c ↦ set_code s c
]

-- The code of `Delete` along a path; `none` where the path goes on behind a file.
abbrev pub delete_code : Steps → Subnodes → Option Code
delete_code stop t = some eisdir
delete_code (file p) t = elim (locate p t) [ absent ↦ some key_not_found | _ ↦ some success ]
delete_code (dir p s) t = elim (locate p t) [
  | absent ↦ some key_not_found
  | is_leaf w b ↦ none
  | is_node c ↦ delete_code s c
]

copy_value_code :
    (v : Bytes) (b : Bool) → length v < name_max → slot_code (copy_value v b) ≡ some success
unfolding copy_value
copy_value_code v b h = ground arith

set_file_code :
    (p v : Bytes) (s : Slot)
    → AreNames (file p)
    → length v < name_max
    → slot_code (set_file p v s) ≡ some (elim s [ is_node c ↦ eisdir | _ ↦ success ])
unfolding set_file
set_file_code p v absent n h = ground (arith, n.short, copy_value_code v Bool.true h)
set_file_code p v (is_leaf w b) n h = copy_value_code v b h
set_file_code p v (is_node c) n h = refl

set_dir_code :
    (p v : Bytes) (f : Subnodes → Option (Code × Subnodes)) (after : Subnodes → Code) (s : Slot)
    → length p < suc name_max
    → ((c : Subnodes) → code_of (f c) ≡ some (after c))
    → slot_code (set_dir p f s)
      ≡ some (elim s [ absent ↦ after nil | is_leaf w b ↦ enotdir | is_node c ↦ after c ])
unfolding set_dir
set_dir_code p v f after absent n k = ground (arith, as_node_code (f nil), k nil)
set_dir_code p v f after (is_leaf w b) n k = refl
set_dir_code p v f after (is_node c) n k = as_node_code (f c) ∙ k c

set_in_code :
    (s : Steps) (v : Bytes) (t : Subnodes)
    → AreNames s
    → length v < name_max
    → code_of (set_in s v t) ≡ some (set_code s t)
unfolding set_in
set_in_code stop v t n h = refl
set_in_code (file p) v t n h = update_code p (set_file p v) t ∙ set_file_code p v (locate p t) n h
set_in_code (dir p s) v t n h =
    update_code p (set_dir p (set_in s v)) t
    ∙ set_dir_code p v (set_in s v) (set_code s) (locate p t) (omega (arith, n.0.short))
        (λ c. set_in_code s v c n.1 h)

delete_file_code :
    (s : Slot)
    → slot_code (delete_file s) ≡ elim s [ absent ↦ some key_not_found | _ ↦ some success ]
unfolding delete_file
delete_file_code absent = refl
delete_file_code _ = refl

delete_dir_code :
    (f : Subnodes → Option (Code × Subnodes)) (after : Subnodes → Option Code) (s : Slot)
    → ((c : Subnodes) → code_of (f c) ≡ after c)
    → slot_code (delete_dir f s)
      ≡ elim s [ absent ↦ some key_not_found | is_leaf w b ↦ none | is_node c ↦ after c ]
unfolding delete_dir
delete_dir_code f after absent k = refl
delete_dir_code f after (is_leaf w b) k = refl
delete_dir_code f after (is_node c) k = pruned_code (f c) ∙ k c

delete_in_code : (s : Steps) (t : Subnodes) → code_of (delete_in s t) ≡ delete_code s t
unfolding delete_in
delete_in_code stop t = refl
delete_in_code (file p) t = update_code p delete_file t ∙ delete_file_code (locate p t)
delete_in_code (dir p s) t =
    update_code p (delete_dir (delete_in s)) t
    ∙ delete_dir_code (delete_in s) (delete_code s) (locate p t) (delete_in_code s)

code_of-some :
    (o : Option (Code × Subnodes)) {code : Code}
    → code_of o ≡ some code
    → (t : Subnodes) × (o ≡ some (code, t))
code_of-some none h = cc
code_of-some (some (code, t)) h = (t, cc)

-- `Set` with names that fit and a value shorter than NAME_MAX always returns. Its code is EISDIR if
-- the path is empty, ends in a slash, or names a directory, ENOTDIR if it goes on behind a file
-- (whichever the walk meets first), and success otherwise: the code that the walk `set_code` finds.
pub set_total :
    (t : Subnodes) (path value : Bytes)
    → AreNames (steps path)
    → length value < name_max
    → (t' : Subnodes) × (set t path value ≡ some (set_code (steps path) t, t'))
unfolding set
set_total t path value n h =
    code_of-some (set_in (steps path) value t) (set_in_code (steps path) value t n h)

-- `Delete` returns the code that the walk `delete_code` finds on any tree: EISDIR if the path is
-- empty or ends in a slash behind directories that exist, a missing key where an element is absent,
-- success at an element that ends the path. Where the path goes on behind a file there is no code:
-- the file is read as a directory, a memory error.
pub delete_outcome :
    (t : Subnodes) (path : Bytes) → code_of (delete t path) ≡ delete_code (steps path) t
unfolding delete
delete_outcome t path = delete_in_code (steps path) t
