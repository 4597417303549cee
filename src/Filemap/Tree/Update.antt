-- ===== src/Filemap/Tree/Update.antt =====
-- The scan with a change (`update`) of src/pextlib1.0/filemap.c against the plain scan (`locate`).
use mac_ports_fork.CString.{Bytes, IsAscii, lower, strcasecmp, strcasecmp-eq, strcasecmp-flip_gt}
use mac_ports_fork.Filemap.Tree.{
  Subnodes, nil, leaf, node, Slot, absent, is_leaf, is_node, Code, compare_part, locate, update,
  put_slot, put_back, keep_leaf, keep_node, SlotStep,
}
use mac_ports_fork.Filemap.Tree.Order.{compare_part-strcasecmp}
use mac_ports_fork.Filemap.Tree.Slots.{
  Above, IsValid, Above-le, locate-Above, Ordering-cases, locate-put_slot, locate-put_slot_ne,
  locate-skip, put_back-eq, Updates,
}
use mac_ports_fork.Prelude.{
  ◌≡◌, ◌≢◌, refl, sym, ◌∙◌, arith, some, none, Ordering, inl, inr, Option, Bool,
}

module _ (p : Bytes) (step : SlotStep) (ascii : IsAscii p) where
  -- The scan stopped in front of `t`, where nothing is found.
  Updates-insert :
      (t : Subnodes) {code : Code} {t' : Subnodes}
      → IsValid t
      → Above p t
      → put_back p t (step absent) ≡ some (code, t')
      → Updates p step t code t'
  Updates-insert t v a h =
      let (s, ran, e) = put_back-eq p t (step absent) h in
      record {
        slot = s;
        ran = rw (locate-Above p t v a) ran;
        here = rw e (locate-put_slot p p s t ascii refl v a);
        elsewhere = λ q ne. rw e (locate-put_slot_ne p q s t ascii ne v a);
      }

  -- The scan stopped at a slot that it found.
  Updates-found :
      (k : Bytes) (s₀ : Slot) (t : Subnodes) {code : Code} {t' : Subnodes}
      → IsAscii k
      → lower k ≡ lower p
      → IsValid t
      → Above k t
      → put_back k t (step s₀) ≡ some (code, t')
      → Updates p step (put_slot k s₀ t) code t'
  Updates-found k s₀ t n e v a h =
      let (s, ran, e') = put_back-eq k t (step s₀) h in
      record {
        slot = s;
        ran = rw (locate-put_slot k p s₀ t n e v a) ran;
        here = rw e' (locate-put_slot k p s t n e v a);
        elsewhere = λ q ne. rw e' (
            let ne' : lower k ≢ lower q = λ x. ne (sym e ∙ x) in
            locate-put_slot_ne k q s t n ne' v a ∙ sym (locate-put_slot_ne k q s₀ t n ne' v a));
      }

  -- The scan went past a slot.
  Updates-skip :
      (k : Bytes) (s₀ : Slot) (t : Subnodes) {code : Code} {t' : Subnodes}
      → locate p (put_slot k s₀ t) ≡ locate p t
      → locate p (put_slot k s₀ t') ≡ locate p t'
      → Updates p step t code t'
      → Updates p step (put_slot k s₀ t) code (put_slot k s₀ t')
  Updates-skip k s₀ t {code} {t'} e e' u = record {
    slot = u.slot;
    ran = rw e u.ran;
    here = e' ∙ u.here;
    elsewhere = λ q ne. locate-skip k q s₀ t' t (u.elsewhere q ne);
  }

locate-lt :
    (k p : Bytes) (s : Slot) (t : Subnodes)
    → compare_part k p ≡ Ordering.lt
    → locate p (put_slot k s t) ≡ locate p t
unfolding locate put_slot
locate-lt k p absent t e = refl
locate-lt k p s t e = ground arith

pub keep_leaf-eq :
    (k w : Bytes) (b : Bool) (o : Option (Code × Subnodes)) {code : Code} {t' : Subnodes}
    → keep_leaf k w b o ≡ some (code, t')
    → (r : Subnodes) × (o ≡ some (code, r)) × (t' ≡ leaf k w b r)
keep_leaf-eq k w b none h = cc
keep_leaf-eq k w b (some (code, r)) h = (r, cc, cc)

pub keep_node-eq :
    (k : Bytes) (c : Subnodes) (o : Option (Code × Subnodes)) {code : Code} {t' : Subnodes}
    → keep_node k c o ≡ some (code, t')
    → (r : Subnodes) × (o ≡ some (code, r)) × (t' ≡ node k c r)
keep_node-eq k c none h = cc
keep_node-eq k c (some (code, r)) h = (r, cc, cc)

-- An element that the scan stops at comes before the rest of the array.
pub below :
    (k p : Bytes) → IsAscii k → compare_part k p ≡ Ordering.gt → strcasecmp p k ≡ Ordering.lt
below k p n g = strcasecmp-flip_gt k p (sym (compare_part-strcasecmp k p n) ∙ g)

same : (k p : Bytes) → IsAscii k → compare_part k p ≡ Ordering.eq → lower k ≡ lower p
same k p n g = strcasecmp-eq k p (sym (compare_part-strcasecmp k p n) ∙ g)

-- The slot at the element is the one that the step returned, and all other slots are as before.
pub update-Updates :
    (p : Bytes) (step : SlotStep) (t : Subnodes) {code : Code} {t' : Subnodes}
    → IsAscii p
    → IsValid t
    → update p step t ≡ some (code, t')
    → Updates p step t code t'
unfolding update put_slot
update-Updates p step nil a v h = Updates-insert p step a nil tt tt h
update-Updates p step (leaf k w b r) a v h = elim (Ordering-cases (compare_part k p)) [
  | inl l ↦
      let (r', ran, e) = keep_leaf-eq k w b (update p step r) (rw (l, update) at h) in
      rw e (
        Updates-skip p step a k (is_leaf w b) r (locate-lt k p (is_leaf w b) r l)
          (locate-lt k p (is_leaf w b) r' l) (update-Updates p step r a v.3 ran))
  | inr (inl q) ↦
      Updates-found p step a k (is_leaf w b) r v.0.ascii (same k p v.0.ascii q) v.3 v.2
        (rw (q, update) at h)
  | inr (inr g) ↦
      let l = below k p v.0.ascii g in
      Updates-insert p step a (leaf k w b r) v (l, Above-le k p r (inl l) v.2) (rw (g, update) at h)
]
update-Updates p step (node k c r) a v h = elim (Ordering-cases (compare_part k p)) [
  | inl l ↦
      let (r', ran, e) = keep_node-eq k c (update p step r) (rw (l, update) at h) in
      rw e (
        Updates-skip p step a k (is_node c) r (locate-lt k p (is_node c) r l)
          (locate-lt k p (is_node c) r' l) (update-Updates p step r a v.3 ran))
  | inr (inl q) ↦
      Updates-found p step a k (is_node c) r v.0.ascii (same k p v.0.ascii q) v.3 v.2
        (rw (q, update) at h)
  | inr (inr g) ↦
      let l = below k p v.0.ascii g in
      Updates-insert p step a (node k c r) v (l, Above-le k p r (inl l) v.2) (rw (g, update) at h)
]
