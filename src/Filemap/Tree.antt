-- ===== src/Filemap/Tree.antt =====
-- The tree of src/pextlib1.0/filemap.c: `SHeader`, `SNode`, `SLeaf`, and the scan for a path element
-- that `Set`, `Get` and `Delete` each contain.
pub mod Order
pub mod Slots
pub mod Update
pub mod Keeps
use mac_ports_fork.CString.{Bytes, strncasecmp}
use mac_ports_fork.Prelude.{
  ℕ, zero, suc, Bool, Option, none, some, ltb, ◌==◌, if◌then◌else◌, length, get_or, compare,
  Ordering,
}

-- <limits.h> on Darwin.
abbrev pub name_max : ℕ
name_max = 255

-- The array of subnodes of an `SNode`, in order. A leaf has its key, its value, and whether the last
-- byte of its `fValue` is known to be 0: `Set` writes that byte when it makes a leaf, `LoadNode`
-- does not. A node has its key and its own subnodes.
pub data Subnodes : Type 0 where
  nil : Subnodes
  leaf : Bytes → Bytes → Bool → Subnodes → Subnodes
  node : Bytes → Subnodes → Subnodes → Subnodes

-- What the scan finds for a path element.
pub data Slot : Type 0 where
  absent : Slot
  is_leaf : Bytes → Bool → Slot
  is_node : Subnodes → Slot

-- The error codes, and the values of `errno` that the code names; `success` is 0.
pub data Code : Type 0 where
  success signature_mismatch unknown_version key_not_found unknown_node_kind : Code
  name_too_long eof_while_loading unknown_option eisdir enotdir eperm eacces : Code
  errno : ℕ → Code

-- A `char` against 0: `char` is signed on Darwin.
unfoldable pub sign_of_char : ℕ → Ordering
sign_of_char b = if b == 0 then Ordering.eq else if ltb b 128 then Ordering.gt else Ordering.lt

-- `theCompResult` for the key of a subnode and a path element: the first `partLength` bytes, and
-- then the byte of the key behind them.
unfoldable pub compare_part : Bytes → Bytes → Ordering
compare_part key part = elim (strncasecmp (length part) key part) [
  | Ordering.lt ↦ Ordering.lt
  | Ordering.eq ↦ sign_of_char (get_or key (length part) 0)
  | Ordering.gt ↦ Ordering.gt
]

-- The scan of `Get`: it goes on while the keys are smaller.
unfoldable pub locate : Bytes → Subnodes → Slot
locate part nil = absent
locate part (leaf key value ended rest) = elim (compare_part key part) [
  | Ordering.lt ↦ locate part rest
  | Ordering.eq ↦ is_leaf value ended
  | Ordering.gt ↦ absent
]
locate part (node key subs rest) = elim (compare_part key part) [
  | Ordering.lt ↦ locate part rest
  | Ordering.eq ↦ is_node subs
  | Ordering.gt ↦ absent
]

-- One subnode put into the array in front of `rest`, or none.
unfoldable pub put_slot : Bytes → Slot → Subnodes → Subnodes
put_slot key absent rest = rest
put_slot key (is_leaf value ended) rest = leaf key value ended rest
put_slot key (is_node subs) rest = node key subs rest

-- A step on one slot: the code, and what the slot then holds; `none` is a memory error.
abbrev pub SlotStep : Type 0
SlotStep = Slot → Option (Code × Slot)

abbrev pub put_back : Bytes → Subnodes → Option (Code × Slot) → Option (Code × Subnodes)
put_back key rest none = none
put_back key rest (some (code, slot)) = some (code, put_slot key slot rest)

abbrev pub keep_leaf : Bytes → Bytes → Bool → Option (Code × Subnodes) → Option (Code × Subnodes)
keep_leaf key value ended none = none
keep_leaf key value ended (some (code, rest)) = some (code, leaf key value ended rest)

abbrev pub keep_node : Bytes → Subnodes → Option (Code × Subnodes) → Option (Code × Subnodes)
keep_node key subs none = none
keep_node key subs (some (code, rest)) = some (code, node key subs rest)

-- The scan of `Set` and `Delete`: `step` is run on the slot at the position where the scan stops,
-- and the array is shifted as the slot asks for. A slot that was found keeps its key.
unfoldable pub update : Bytes → SlotStep → Subnodes → Option (Code × Subnodes)
unfolding put_slot
update part step nil = put_back part nil (step absent)
update part step (leaf key value ended rest) = elim (compare_part key part) [
  | Ordering.lt ↦ keep_leaf key value ended (update part step rest)
  | Ordering.eq ↦ put_back key rest (step (is_leaf value ended))
  | Ordering.gt ↦ put_back part (leaf key value ended rest) (step absent)
]
update part step (node key subs rest) = elim (compare_part key part) [
  | Ordering.lt ↦ keep_node key subs (update part step rest)
  | Ordering.eq ↦ put_back key rest (step (is_node subs))
  | Ordering.gt ↦ put_back part (node key subs rest) (step absent)
]

-- `fSubnodesCount`.
unfoldable pub count : Subnodes → ℕ
count nil = 0
count (leaf key value ended rest) = suc (count rest)
count (node key subs rest) = suc (count rest)
