-- ===== src/Filemap/Access/GetDelete.antt =====
-- `Get` of src/pextlib1.0/filemap.c after `Delete`.
use mac_ports_fork.CString.{Bytes, lower}
use mac_ports_fork.Filemap.Access.{
  leaf_value, node_value, get_in, delete_file, delete_dir, delete_in, prune, get, delete,
}
use mac_ports_fork.Filemap.Access.Keeps.{pruned-eq, delete_in-IsValid}
use mac_ports_fork.Filemap.Access.GetSet.{is_success, view_update, view_same, get_in-nil}
use mac_ports_fork.Filemap.FilePath.{Steps, stop, file, dir, steps, AreNames, same_bytes, covers}
use mac_ports_fork.Filemap.Tree.{
  Subnodes, nil, leaf, node, Slot, absent, is_leaf, is_node, Code, locate, count,
}
use mac_ports_fork.Filemap.Tree.Slots.{IsValid, IsValidSlot, Updates, locate-IsValidSlot}
use mac_ports_fork.Filemap.Tree.Update.{update-Updates}
use mac_ports_fork.Prelude.{
  ◌≡◌, refl, sym, ◌∙◌, arith, some, none, Option, Bool, true, false, ◌&&◌, if◌then◌else◌,
}

abbrev left_after : Code → Bool → Option Bytes → Option Bytes
left_after code covered old = if is_success code && covered then none else old

left_after_other : (code : Code) (old : Option Bytes) → old ≡ left_after code false old
left_after_other code old = ground arith

left_after_if :
    (code : Code) (b covered : Bool) (old : Option Bytes)
    → (if b then left_after code covered old else old) ≡ left_after code (b && covered) old
left_after_if code true covered old = refl
left_after_if code false covered old = ground arith

left_after_self :
    (code : Code) (b : Bool) (old : Option Bytes)
    → (if b then left_after code true old else old) ≡ left_after code b old
left_after_self code true old = refl
left_after_self code false old = ground arith

delete_file-leaf_value :
    (s : Slot) {code : Code} {s' : Slot}
    → delete_file s ≡ some (code, s')
    → leaf_value s' ≡ left_after code true (leaf_value s)
unfolding delete_file leaf_value
delete_file-leaf_value absent h = ground arith
delete_file-leaf_value _ h = ground arith

delete_file-node_value :
    (s : Slot) (inner : Subnodes → Option Bytes) {code : Code} {s' : Slot}
    → delete_file s ≡ some (code, s')
    → node_value inner s' ≡ left_after code true (node_value inner s)
unfolding delete_file node_value
delete_file-node_value absent inner h = ground arith
delete_file-node_value _ inner h = ground arith

prune-leaf_value : (c : Subnodes) → leaf_value (prune c) ≡ none
unfolding prune leaf_value
prune-leaf_value c = ground arith

-- An empty node holds no value, so pruning it changes no reading.
prune-node_value : (q : Steps) (c : Subnodes) → node_value (get_in q) (prune c) ≡ get_in q c
unfolding prune node_value count
prune-node_value q nil = sym (get_in-nil q)
prune-node_value q (leaf k w b r) = ground arith
prune-node_value q (node k c r) = ground arith

delete_dir-leaf_value :
    (f : Subnodes → Option (Code × Subnodes)) (s : Slot) {code : Code} {s' : Slot}
    → delete_dir f s ≡ some (code, s')
    → leaf_value s' ≡ leaf_value s
unfolding delete_dir
delete_dir-leaf_value f absent h = cc
delete_dir-leaf_value f (is_leaf w b) h = cc
delete_dir-leaf_value f (is_node c) h =
    let (c', ran, e) = pruned-eq (f c) h in rw e (prune-leaf_value c' ∙ unfold leaf_value in refl)

-- What the recursive call does, for one remaining path that is asked for.
abbrev Leaves : (Subnodes → Option (Code × Subnodes)) → (Subnodes → Option Bytes) → Bool → Type 0
Leaves f inner covered =
    (t : Subnodes) (code : Code) (t' : Subnodes)
    → IsValid t
    → f t ≡ some (code, t')
    → inner t' ≡ left_after code covered (inner t)

delete_dir-node_value :
    (f : Subnodes → Option (Code × Subnodes)) (q : Steps) (covered : Bool) (s : Slot) {code : Code}
    {s' : Slot}
    → Leaves f (get_in q) covered
    → IsValidSlot s
    → delete_dir f s ≡ some (code, s')
    → node_value (get_in q) s' ≡ left_after code covered (node_value (get_in q) s)
unfolding delete_dir
delete_dir-node_value f q covered absent k vs h = unfold node_value in ground arith
delete_dir-node_value f q covered (is_leaf w b) k vs h = cc
delete_dir-node_value f q covered (is_node c) {code} k vs h =
    let (c', ran, e) = pruned-eq (f c) h in
    rw e (prune-node_value q c' ∙ unfold node_value in k c code c' vs ran)

get_in-delete_file :
    (p : Bytes) (q : Steps) (t : Subnodes) {code : Code} {t' : Subnodes}
    → IsValid t
    → IsValid t'
    → Updates p delete_file t code t'
    → get_in q t' ≡ left_after code (covers (file p) q) (get_in q t)
unfolding get_in
get_in-delete_file p stop t {code} vt vt' u = left_after_other code none
get_in-delete_file p (file q) t {code} vt vt' u =
    view_update leaf_value (left_after code true) p q delete_file t u vt vt'
      (delete_file-leaf_value (locate p t) u.ran)
    ∙ left_after_self code (same_bytes (lower p) (lower q)) _
get_in-delete_file p (dir q r) t {code} vt vt' u =
    view_update (node_value (get_in r)) (left_after code true) p q delete_file t u vt vt'
      (delete_file-node_value (locate p t) (get_in r) u.ran)
    ∙ left_after_self code (same_bytes (lower p) (lower q)) _

get_in-delete_dir :
    (p : Bytes) (s q : Steps) (t : Subnodes) {code : Code} {t' : Subnodes}
    → ((r : Steps) → Leaves (delete_in s) (get_in r) (covers s r))
    → IsValid t
    → IsValid t'
    → Updates p (delete_dir (delete_in s)) t code t'
    → get_in q t' ≡ left_after code (covers (dir p s) q) (get_in q t)
unfolding get_in
get_in-delete_dir p s stop t {code} k vt vt' u = left_after_other code none
get_in-delete_dir p s (file q) t {code} k vt vt' u =
    view_same leaf_value p q (delete_dir (delete_in s)) t u vt vt'
      (delete_dir-leaf_value (delete_in s) (locate p t) u.ran)
    ∙ left_after_other code _
get_in-delete_dir p s (dir q r) t {code} k vt vt' u =
    view_update (node_value (get_in r)) (left_after code (covers s r)) p q
      (delete_dir (delete_in s)) t u vt vt'
      (delete_dir-node_value (delete_in s) r (covers s r) (locate p t) (k r)
        (locate-IsValidSlot p t vt) u.ran)
    ∙ left_after_if code (same_bytes (lower p) (lower q)) (covers s r) _

-- Below the root: after a `Delete` with the code success the paths at and below the deleted one
-- read as absent; all other paths, and all paths on any other code, read as before.
pub get_in-delete_in : (s q : Steps) → AreNames s → Leaves (delete_in s) (get_in q) (covers s q)
get_in-delete_in stop q n t code t' vt e = unfold delete_in in ground arith
get_in-delete_in (file p) q n t code t' vt e =
    get_in-delete_file p q t vt (delete_in-IsValid (file p) n t code t' vt e)
      (update-Updates p delete_file t n.ascii vt (unfold delete_in in e))
get_in-delete_in (dir p s) q n t code t' vt e =
    get_in-delete_dir p s q t (λ r. get_in-delete_in s r n.1) vt
      (delete_in-IsValid (dir p s) n t code t' vt e)
      (update-Updates p (delete_dir (delete_in s)) t n.0.ascii vt (unfold delete_in in e))

-- On a well-formed tree, when `Delete` returns: the tree is well formed, and each path reads as
-- before, but on success the deleted path and every path below it read as absent. So the pruning of
-- empty directories, on success and on failure, is never seen.
pub get-delete :
    (t : Subnodes) (path : Bytes) {code : Code} {t' : Subnodes}
    → IsValid t
    → AreNames (steps path)
    → delete t path ≡ some (code, t')
    → IsValid t'
      × ((other : Bytes)
          → get t' other
            ≡ (if is_success code && covers (steps path) (steps other) then none else get t other))
unfolding get delete
get-delete t path {code} {t'} v n e = (
  delete_in-IsValid (steps path) n t code t' v e,
  λ other. get_in-delete_in (steps path) (steps other) n t code t' v e,
)
