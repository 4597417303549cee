-- ===== src/Filemap/Tree/Keeps.antt =====
-- The arrays of src/pextlib1.0/filemap.c stay sorted when `update` changes a slot.
use mac_ports_fork.CString.{Bytes, strcasecmp}
use mac_ports_fork.Filemap.Tree.{
  Subnodes, nil, leaf, node, Slot, absent, is_leaf, is_node, Code, compare_part, update, put_slot,
  put_back, SlotStep,
}
use mac_ports_fork.Filemap.Tree.Slots.{
  IsName, Above, IsValid, IsValidSlot, Above-le, Ordering-cases, put_back-eq,
}
use mac_ports_fork.Filemap.Tree.Update.{below, keep_leaf-eq, keep_node-eq}
use mac_ports_fork.Filemap.Tree.Order.{compare_part-strcasecmp}
use mac_ports_fork.Prelude.{◌≡◌, some, Ordering, inl, inr, sym, ◌∙◌, Option}

put_slot-IsValid :
    (k : Bytes) (s : Slot) (t : Subnodes)
    → IsName k
    → IsValidSlot s
    → IsValid t
    → Above k t
    → IsValid (put_slot k s t)
unfolding put_slot
put_slot-IsValid k absent t n v w a = w
put_slot-IsValid k (is_leaf x b) t n v w a = (n, v, a, w)
put_slot-IsValid k (is_node c) t n v w a = (n, v, a, w)

put_slot-Above :
    (j k : Bytes) (s : Slot) (t : Subnodes)
    → strcasecmp j k ≡ Ordering.lt
    → Above j t
    → Above j (put_slot k s t)
unfolding put_slot
put_slot-Above j k absent t l a = a
put_slot-Above j k (is_leaf x b) t l a = (l, a)
put_slot-Above j k (is_node c) t l a = (l, a)

put_back-Above :
    (j k : Bytes) (o : Option (Code × Slot)) (t : Subnodes) {code : Code} {t' : Subnodes}
    → put_back k t o ≡ some (code, t')
    → strcasecmp j k ≡ Ordering.lt
    → Above j t
    → Above j t'
put_back-Above j k o t h l a =
    let (s, ran, e) = put_back-eq k t o h in rw e (put_slot-Above j k s t l a)

update-Above :
    (j p : Bytes) (step : SlotStep) (t : Subnodes) {code : Code} {t' : Subnodes}
    → strcasecmp j p ≡ Ordering.lt
    → Above j t
    → update p step t ≡ some (code, t')
    → Above j t'
unfolding update
update-Above j p step nil l a h = put_back-Above j p (step absent) nil h l a
update-Above j p step (leaf k w b r) l a h = elim (Ordering-cases (compare_part k p)) [
  | inl e ↦
      let (r', ran, e') = keep_leaf-eq k w b (update p step r) (rw (e, update) at h) in
      rw (e', Above) (a.0, update-Above j p step r l a.1 ran)
  | inr (inl e) ↦ put_back-Above j k (step (is_leaf w b)) r (rw (e, update) at h) a.0 a.1
  | inr (inr e) ↦ put_back-Above j p (step absent) (leaf k w b r) (rw (e, update) at h) l a
]
update-Above j p step (node k c r) l a h = elim (Ordering-cases (compare_part k p)) [
  | inl e ↦
      let (r', ran, e') = keep_node-eq k c (update p step r) (rw (e, update) at h) in
      rw (e', Above) (a.0, update-Above j p step r l a.1 ran)
  | inr (inl e) ↦ put_back-Above j k (step (is_node c)) r (rw (e, update) at h) a.0 a.1
  | inr (inr e) ↦ put_back-Above j p (step absent) (node k c r) (rw (e, update) at h) l a
]

-- A step that leaves a well-formed slot in every well-formed slot.
abbrev pub KeepsSlots : SlotStep → Type 0
KeepsSlots step =
    (s : Slot) (code : Code) (s' : Slot) → IsValidSlot s → step s ≡ some (code, s') → IsValidSlot s'

module _ (p : Bytes) (step : SlotStep) (name : IsName p) (keeps : KeepsSlots step) where
  put_back-IsValid :
      (k : Bytes) (s : Slot) (t : Subnodes) {code : Code} {t' : Subnodes}
      → IsName k
      → IsValidSlot s
      → IsValid t
      → Above k t
      → put_back k t (step s) ≡ some (code, t')
      → IsValid t'
  put_back-IsValid k s t {code} n vs v a h =
      let (s', ran, e) = put_back-eq k t (step s) h in
      rw e (put_slot-IsValid k s' t n (keeps s code s' vs ran) v a)

  pub update-IsValid :
      (t : Subnodes) {code : Code} {t' : Subnodes}
      → IsValid t
      → update p step t ≡ some (code, t')
      → IsValid t'
  unfolding update
  update-IsValid nil v h = put_back-IsValid p absent nil name tt tt tt h
  update-IsValid (leaf k w b r) v h = elim (Ordering-cases (compare_part k p)) [
    | inl l ↦
        let (r', ran, e) = keep_leaf-eq k w b (update p step r) (rw (l, update) at h) in
        rw (e, IsValid)
          (
            v.0,
            v.1,
            update-Above k p step r (sym (compare_part-strcasecmp k p v.0.ascii) ∙ l) v.2 ran,
            update-IsValid r v.3 ran,
          )
    | inr (inl q) ↦ put_back-IsValid k (is_leaf w b) r v.0 v.1 v.3 v.2 (rw (q, update) at h)
    | inr (inr g) ↦
        let l = below k p v.0.ascii g in
        put_back-IsValid p absent (leaf k w b r) name tt v (l, Above-le k p r (inl l) v.2)
          (rw (g, update) at h)
  ]
  update-IsValid (node k c r) v h = elim (Ordering-cases (compare_part k p)) [
    | inl l ↦
        let (r', ran, e) = keep_node-eq k c (update p step r) (rw (l, update) at h) in
        rw (e, IsValid)
          (
            v.0,
            v.1,
            update-Above k p step r (sym (compare_part-strcasecmp k p v.0.ascii) ∙ l) v.2 ran,
            update-IsValid r v.3 ran,
          )
    | inr (inl q) ↦ put_back-IsValid k (is_node c) r v.0 v.1 v.3 v.2 (rw (q, update) at h)
    | inr (inr g) ↦
        let l = below k p v.0.ascii g in
        put_back-IsValid p absent (node k c r) name tt v (l, Above-le k p r (inl l) v.2)
          (rw (g, update) at h)
  ]
