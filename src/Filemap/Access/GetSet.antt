-- ===== src/Filemap/Access/GetSet.antt =====
-- `Get` of src/pextlib1.0/filemap.c after `Set`.
use mac_ports_fork.CString.{Bytes, lower}
use mac_ports_fork.Filemap.Access.{
  leaf_value, node_value, get_in, set_file, set_dir, set_in, get, set,
}
use mac_ports_fork.Filemap.Access.Keeps.{copy_value-eq, as_node-eq, set_in-IsValid, IsText}
use mac_ports_fork.Filemap.FilePath.{
  Steps, stop, file, dir, steps, AreNames, same_bytes, same_path, same_bytes_iff,
}
use mac_ports_fork.Filemap.Tree.{
  Subnodes, nil, Slot, absent, is_leaf, is_node, Code, success, locate, name_max, SlotStep,
}
use mac_ports_fork.Filemap.Tree.Slots.{
  IsValid, IsValidSlot, Updates, locate_congr, locate-IsValidSlot,
}
use mac_ports_fork.Filemap.Tree.Update.{update-Updates}
use mac_ports_fork.Prelude.{
  ◌≡◌, refl, sym, ◌∙◌, ap, arith, some, none, Option, Bool, true, false, ◌&&◌, if◌then◌else◌, take,
  Bool-cases, inl, inr, leb, length,
}

abbrev pub is_success : Code → Bool
is_success success = true
is_success _ = false

-- A view of the slot at `q` after an update at `p` whose step changes the view by `g`.
pub view_update {ℓ} :
    {X : Type ℓ} (view : Slot → X) (g : X → X) (p q : Bytes) (step : SlotStep) (t : Subnodes)
    {code : Code} {t' : Subnodes} (u : Updates p step t code t')
    → IsValid t
    → IsValid t'
    → view u.slot ≡ g (view (locate p t))
    → view (locate q t')
      ≡ (if same_bytes (lower p) (lower q) then g (view (locate q t)) else view (locate q t))
view_update view g p q step t {code} {t'} u v v' e =
    elim (Bool-cases (same_bytes (lower p) (lower q))) [
      | inl y ↦
          let l = (same_bytes_iff (lower p) (lower q)).0 y in
          rw y (
            ap view (sym (locate_congr p q t' v' l) ∙ u.here)
            ∙ e
            ∙ ap (λ s. g (view s)) (locate_congr p q t v l))
      | inr n ↦
          rw n (ap view (u.elsewhere q (λ x. cc (n, (same_bytes_iff (lower p) (lower q)).1 x))))
    ]

abbrev value_after : Code → Bool → Bytes → Option Bytes → Option Bytes
value_after code same value old =
    if is_success code && same then some (take name_max value) else old

-- The file step, seen as a file and as a directory.
set_file-leaf_value :
    (p v : Bytes) (s : Slot) {code : Code} {s' : Slot}
    → set_file p v s ≡ some (code, s')
    → leaf_value s' ≡ value_after code true v (leaf_value s)
unfolding set_file leaf_value
set_file-leaf_value p v absent h = elim (Bool-cases (leb (length p) name_max)) [
  | inl y ↦ let e = copy_value-eq v true (rw y at h) in ground (arith, e.0, e.1)
  | inr n ↦ absurd (ground (arith, n))
]
set_file-leaf_value p v (is_leaf w b) h = let e = copy_value-eq v b h in ground (arith, e.0, e.1)
set_file-leaf_value p v (is_node c) h = ground arith

set_file-node_value :
    (p v : Bytes) (s : Slot) (inner : Subnodes → Option Bytes) {code : Code} {s' : Slot}
    → set_file p v s ≡ some (code, s')
    → node_value inner s' ≡ node_value inner s
unfolding set_file node_value
set_file-node_value p v absent inner h = ground arith
set_file-node_value p v (is_leaf w b) inner h = ground arith
set_file-node_value p v (is_node c) inner h = ground arith

-- The directory step, seen the same two ways.
set_dir-leaf_value :
    (p : Bytes) (f : Subnodes → Option (Code × Subnodes)) (s : Slot) {code : Code} {s' : Slot}
    → set_dir p f s ≡ some (code, s')
    → leaf_value s' ≡ leaf_value s
unfolding set_dir leaf_value
set_dir-leaf_value p f absent h = ground arith
set_dir-leaf_value p f (is_leaf w b) h = ground arith
set_dir-leaf_value p f (is_node c) h = ground arith

pub get_in-nil : (q : Steps) → get_in q nil ≡ none
unfolding get_in
get_in-nil stop = refl
get_in-nil (file q) = refl
get_in-nil (dir q r) = refl

-- What the recursive call does, for one remaining path that is asked for.
abbrev Follows :
    (Subnodes → Option (Code × Subnodes)) → (Subnodes → Option Bytes) → Bool → Bytes → Type 0
Follows f inner same v =
    (t : Subnodes) (code : Code) (t' : Subnodes)
    → IsValid t
    → f t ≡ some (code, t')
    → inner t' ≡ value_after code same v (inner t)

set_dir-node_value :
    (p v : Bytes) (f : Subnodes → Option (Code × Subnodes)) (inner : Subnodes → Option Bytes)
    (same : Bool) (s : Slot) {code : Code} {s' : Slot}
    → Follows f inner same v
    → inner nil ≡ none
    → IsValidSlot s
    → set_dir p f s ≡ some (code, s')
    → node_value inner s' ≡ value_after code same v (node_value inner s)
unfolding set_dir node_value
set_dir-node_value p v f inner same absent {code} k e vs h =
    elim (Bool-cases (leb (length p) name_max)) [
      | inl y ↦
          let (c, ran, e') = as_node-eq (f nil) (rw y at h) in rw e' (k nil code c tt ran ∙ rw e)
      | inr n ↦ absurd (ground (arith, n))
    ]
set_dir-node_value p v f inner same (is_leaf w b) k e vs h = ground arith
set_dir-node_value p v f inner same (is_node c) {code} k e vs h =
    let (c', ran, e') = as_node-eq (f c) h in rw e' (k c code c' vs ran)

value_after_if :
    (code : Code) (b same : Bool) (v : Bytes) (old : Option Bytes)
    → (if b then value_after code same v old else old) ≡ value_after code (b && same) v old
value_after_if code true same v old = refl
value_after_if code false same v old = ground arith

-- An update whose step keeps the view changes nothing that is seen through it.
pub view_same {ℓ} :
    {X : Type ℓ} (view : Slot → X) (p q : Bytes) (step : SlotStep) (t : Subnodes) {code : Code}
    {t' : Subnodes} (u : Updates p step t code t')
    → IsValid t
    → IsValid t'
    → view u.slot ≡ view (locate p t)
    → view (locate q t') ≡ view (locate q t)
view_same view p q step t u v v' e = elim (Bool-cases (same_bytes (lower p) (lower q))) [
  | inl y ↦ view_update view (λ x. x) p q step t u v v' e ∙ rw y
  | inr n ↦ view_update view (λ x. x) p q step t u v v' e ∙ rw n
]

value_after_self :
    (code : Code) (b : Bool) (v : Bytes) (old : Option Bytes)
    → (if b then value_after code true v old else old) ≡ value_after code b v old
value_after_self code true v old = refl
value_after_self code false v old = ground arith

value_after_other :
    (code : Code) (v : Bytes) (old : Option Bytes) → old ≡ value_after code false v old
value_after_other code v old = ground arith

get_in-set_file :
    (p v : Bytes) (q : Steps) (t : Subnodes) {code : Code} {t' : Subnodes}
    → IsValid t
    → IsValid t'
    → Updates p (set_file p v) t code t'
    → get_in q t' ≡ value_after code (same_path (file p) q) v (get_in q t)
unfolding get_in
get_in-set_file p v stop t {code} vt vt' u = value_after_other code v none
get_in-set_file p v (file q) t {code} {t'} vt vt' u =
    view_update leaf_value (value_after code true v) p q (set_file p v) t u vt vt'
      (set_file-leaf_value p v (locate p t) u.ran)
    ∙ value_after_self code (same_bytes (lower p) (lower q)) v (leaf_value (locate q t))
get_in-set_file p v (dir q r) t {code} {t'} vt vt' u =
    view_same (node_value (get_in r)) p q (set_file p v) t u vt vt'
      (set_file-node_value p v (locate p t) (get_in r) u.ran)
    ∙ value_after_other code v _

get_in-set_dir :
    (p v : Bytes) (s q : Steps) (t : Subnodes) {code : Code} {t' : Subnodes}
    → ((r : Steps) → Follows (set_in s v) (get_in r) (same_path s r) v)
    → IsValid t
    → IsValid t'
    → Updates p (set_dir p (set_in s v)) t code t'
    → get_in q t' ≡ value_after code (same_path (dir p s) q) v (get_in q t)
unfolding get_in
get_in-set_dir p v s stop t {code} k vt vt' u = value_after_other code v none
get_in-set_dir p v s (file q) t {code} k vt vt' u =
    view_same leaf_value p q (set_dir p (set_in s v)) t u vt vt'
      (set_dir-leaf_value p (set_in s v) (locate p t) u.ran)
    ∙ value_after_other code v _
get_in-set_dir p v s (dir q r) t {code} k vt vt' u =
    view_update (node_value (get_in r)) (value_after code (same_path s r) v) p q
      (set_dir p (set_in s v)) t u vt vt'
      (set_dir-node_value p v (set_in s v) (get_in r) (same_path s r) (locate p t) (k r)
        (get_in-nil r) (locate-IsValidSlot p t vt) u.ran)
    ∙ value_after_if code (same_bytes (lower p) (lower q)) (same_path s r) v _

-- Below the root: after a `Set` every path reads as before, but for the path that was set, in any
-- spelling, if the code is success.
pub get_in-set_in :
    (s : Steps) (v : Bytes) (q : Steps)
    → AreNames s
    → IsText v
    → Follows (set_in s v) (get_in q) (same_path s q) v
get_in-set_in stop v q n h t code t' vt e = unfold set_in in ground arith
get_in-set_in (file p) v q n h t code t' vt e =
    get_in-set_file p v q t vt (set_in-IsValid (file p) v n h t code t' vt e)
      (update-Updates p (set_file p v) t n.ascii vt (unfold set_in in e))
get_in-set_in (dir p s) v q n h t code t' vt e =
    get_in-set_dir p v s q t (λ r. get_in-set_in s v r n.1 h) vt
      (set_in-IsValid (dir p s) v n h t code t' vt e)
      (update-Updates p (set_dir p (set_in s v)) t n.0.ascii vt (unfold set_in in e))

-- On a well-formed tree, for a path of ASCII names that fit, when `Set` returns: the tree is well formed, and each path reads as before,
-- but the path that was set reads as the first NAME_MAX bytes of the value if the code is success.
-- Paths are compared without regard to letter case, doubled or leading slashes.
pub get-set :
    (t : Subnodes) (path value : Bytes) {code : Code} {t' : Subnodes}
    → IsValid t
    → AreNames (steps path)
    → IsText value
    → set t path value ≡ some (code, t')
    → IsValid t'
      × ((other : Bytes)
          → get t' other ≡ (
              if is_success code && same_path (steps path) (steps other)
              then some (take name_max value)
              else get t other))
unfolding get set
get-set t path value {code} {t'} v n h e = (
  set_in-IsValid (steps path) value n h t code t' v e,
  λ other. get_in-set_in (steps path) value (steps other) n h t code t' v e,
)
