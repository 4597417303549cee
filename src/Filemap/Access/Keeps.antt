-- ===== src/Filemap/Access/Keeps.antt =====
-- `Set` and `Delete` of src/pextlib1.0/filemap.c keep a tree well formed, on every outcome.
use mac_ports_fork.CString.{Bytes}
use mac_ports_fork.Filemap.Access.{
  copy_value, set_file, set_dir, set_in, as_node, delete_file, delete_dir, delete_in, prune, pruned,
}
use mac_ports_fork.Filemap.FilePath.{Steps, stop, file, dir, AreNames}
use mac_ports_fork.Filemap.Tree.{
  Subnodes, nil, leaf, node, Slot, absent, is_leaf, is_node, Code, success, name_max, count,
}
use mac_ports_fork.Filemap.Tree.Keeps.{KeepsSlots, update-IsValid}
use mac_ports_fork.Filemap.Tree.Slots.{IsValue, IsValid, IsValidSlot}
use mac_ports_fork.Prelude.{
  ◌≡◌, ◌<◌, ◌||◌, ltb, leb, sym, subst, arith, some, none, Option, Bool, true, take, Bool-cases,
  inl, inr, All, All-take, length, length-take_le,
}

-- The bytes of a value that comes from a C string.
abbrev pub IsText : Bytes → Type 0
IsText value = All (λ c. (0 < c) × (c < 256)) value

IsValue-take : (v : Bytes) → IsText v → IsValue (take name_max v)
IsValue-take v h = record { no_zero = All-take _ name_max v h; short = length-take_le name_max v }

pub copy_value-eq :
    (v : Bytes) (e : Bool) {code : Code} {s : Slot}
    → copy_value v e ≡ some (code, s)
    → (code ≡ success) × (s ≡ is_leaf (take name_max v) e)
unfolding copy_value
copy_value-eq v e h = elim (Bool-cases (e || ltb (length v) name_max)) [
  | inl y ↦ ground (arith, y)
  | inr n ↦ ground (arith, n)
]

set_file-KeepsSlots : (p v : Bytes) → IsText v → KeepsSlots (set_file p v)
unfolding set_file
set_file-KeepsSlots p v h absent code s' vs e = elim (Bool-cases (leb (length p) name_max)) [
  | inl y ↦ rw ((copy_value-eq v true (rw y at e)).1, IsValidSlot) (IsValue-take v h)
  | inr n ↦ absurd (ground (arith, n))
]
set_file-KeepsSlots p v h (is_leaf w b) code s' vs e =
    rw ((copy_value-eq v b e).1, IsValidSlot) (IsValue-take v h)
set_file-KeepsSlots p v h (is_node c) code s' vs e = subst IsValidSlot {x = is_node c} (cc) vs

pub as_node-eq :
    (o : Option (Code × Subnodes)) {code : Code} {s : Slot}
    → as_node o ≡ some (code, s)
    → (c : Subnodes) × (o ≡ some (code, c)) × (s ≡ is_node c)
as_node-eq none h = cc
as_node-eq (some (code, c)) h = (c, cc, cc)

-- A function on subnodes that keeps them well formed.
abbrev pub KeepsTrees : (Subnodes → Option (Code × Subnodes)) → Type 0
KeepsTrees inner =
    (t : Subnodes) (code : Code) (t' : Subnodes)
    → IsValid t
    → inner t ≡ some (code, t')
    → IsValid t'

as_node-IsValidSlot :
    (inner : Subnodes → Option (Code × Subnodes)) (t : Subnodes) (code : Code) (s : Slot)
    → KeepsTrees inner
    → IsValid t
    → as_node (inner t) ≡ some (code, s)
    → IsValidSlot s
as_node-IsValidSlot inner t code s k v e =
    let (c, ran, e') = as_node-eq (inner t) e in rw (e', IsValidSlot) (k t code c v ran)

set_dir-KeepsSlots :
    (p : Bytes) (inner : Subnodes → Option (Code × Subnodes))
    → KeepsTrees inner
    → KeepsSlots (set_dir p inner)
unfolding set_dir
set_dir-KeepsSlots p inner k absent code s' vs e = elim (Bool-cases (leb (length p) name_max)) [
  | inl y ↦ as_node-IsValidSlot inner nil code s' k tt (rw y at e)
  | inr n ↦ absurd (ground (arith, n))
]
set_dir-KeepsSlots p inner k (is_leaf w b) code s' vs e =
    subst IsValidSlot {x = is_leaf w b} (cc) vs
set_dir-KeepsSlots p inner k (is_node c) code s' vs e = as_node-IsValidSlot inner c code s' k vs e

pub set_in-IsValid : (s : Steps) (v : Bytes) → AreNames s → IsText v → KeepsTrees (set_in s v)
unfolding set_in
set_in-IsValid stop v n h t code t' vt e = subst IsValid (cc) vt
set_in-IsValid (file p) v n h t code t' vt e =
    update-IsValid p (set_file p v) n (set_file-KeepsSlots p v h) t vt e
set_in-IsValid (dir p s) v n h t code t' vt e =
    update-IsValid p (set_dir p (set_in s v)) n.0
      (set_dir-KeepsSlots p (set_in s v) (set_in-IsValid s v n.1 h)) t vt e

delete_file-KeepsSlots : KeepsSlots delete_file
unfolding delete_file
delete_file-KeepsSlots absent code s' v e = subst IsValidSlot {x = absent} (cc) tt
delete_file-KeepsSlots (is_leaf w b) code s' v e = subst IsValidSlot {x = absent} (cc) tt
delete_file-KeepsSlots (is_node c) code s' v e = subst IsValidSlot {x = absent} (cc) tt

prune-IsValidSlot : (c : Subnodes) → IsValid c → IsValidSlot (prune c)
unfolding prune count
prune-IsValidSlot nil v = tt
prune-IsValidSlot (leaf k w b r) v = subst IsValidSlot {x = is_node (leaf k w b r)} (ground arith) v
prune-IsValidSlot (node k c r) v = subst IsValidSlot {x = is_node (node k c r)} (ground arith) v

pub pruned-eq :
    (o : Option (Code × Subnodes)) {code : Code} {s : Slot}
    → pruned o ≡ some (code, s)
    → (c : Subnodes) × (o ≡ some (code, c)) × (s ≡ prune c)
pruned-eq none h = cc
pruned-eq (some (code, c)) h = (c, cc, cc)

delete_dir-KeepsSlots :
    (inner : Subnodes → Option (Code × Subnodes)) → KeepsTrees inner → KeepsSlots (delete_dir inner)
unfolding delete_dir
delete_dir-KeepsSlots inner k absent code s' v e = subst IsValidSlot {x = absent} (cc) tt
delete_dir-KeepsSlots inner k (is_leaf w b) code s' v e = cc
delete_dir-KeepsSlots inner k (is_node c) code s' v e =
    let (c', ran, e') = pruned-eq (inner c) e in
    subst IsValidSlot (sym e') (prune-IsValidSlot c' (k c code c' v ran))

pub delete_in-IsValid : (s : Steps) → AreNames s → KeepsTrees (delete_in s)
unfolding delete_in
delete_in-IsValid stop n t code t' vt e = subst IsValid (cc) vt
delete_in-IsValid (file p) n t code t' vt e =
    update-IsValid p delete_file n delete_file-KeepsSlots t vt e
delete_in-IsValid (dir p s) n t code t' vt e =
    update-IsValid p (delete_dir (delete_in s)) n.0
      (delete_dir-KeepsSlots (delete_in s) (delete_in-IsValid s n.1)) t vt e
