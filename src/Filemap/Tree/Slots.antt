-- ===== src/Filemap/Tree/Slots.antt =====
-- Well-formed trees of src/pextlib1.0/filemap.c (each array sorted by case-folded key), and how the
-- scans `locate` and `update` deal with one slot of an array.
use mac_ports_fork.CString.{
  Bytes, IsAscii, lower, strcasecmp, strcasecmp-eq, strcasecmp_refl, strcasecmp-flip_lt,
  strcasecmp-flip_gt, strcasecmp_trans, strcasecmp_congr, strcasecmp_congr_right,
}
use mac_ports_fork.Filemap.Tree.{
  Subnodes, nil, leaf, node, Slot, absent, is_leaf, is_node, Code, compare_part, locate, put_slot,
  put_back, SlotStep, name_max,
}
use mac_ports_fork.Filemap.Tree.Order.{compare_part-strcasecmp}
use mac_ports_fork.Prelude.{
  ◌≡◌, ◌≢◌, refl, sym, ◌∙◌, ◌<◌, ◌≤◌, arith, length, some, none, Ordering, All, ◌⊎◌, inl, inr,
  Option,
}

-- A path element: what the scan of a path cuts out, short enough for `fKeySubpart`.
pub record IsName (key : Bytes) : Type 0 where
  pub ascii : IsAscii key
  pub no_slash : All (λ c. c ≢ b'/') key
  pub not_empty : 0 < length key
  pub short : length key ≤ name_max

-- A value as `fValue` holds it.
pub record IsValue (value : Bytes) : Type 0 where
  pub no_zero : All (λ c. (0 < c) × (c < 256)) value
  pub short : length value ≤ name_max

-- The key comes before every key of the array.
abbrev pub Above : Bytes → Subnodes → Type 0
Above key nil = Unit
Above key (leaf k value ended rest) = (strcasecmp key k ≡ Ordering.lt) × Above key rest
Above key (node k subs rest) = (strcasecmp key k ≡ Ordering.lt) × Above key rest

abbrev pub IsValid : Subnodes → Type 0
IsValid nil = Unit
IsValid (leaf key value ended rest) = IsName key × IsValue value × Above key rest × IsValid rest
IsValid (node key subs rest) = IsName key × IsValid subs × Above key rest × IsValid rest

abbrev pub IsValidSlot : Slot → Type 0
IsValidSlot absent = Unit
IsValidSlot (is_leaf value ended) = IsValue value
IsValidSlot (is_node subs) = IsValid subs

pub Ordering-cases : (o : Ordering) → (o ≡ Ordering.lt) ⊎ ((o ≡ Ordering.eq) ⊎ (o ≡ Ordering.gt))
Ordering-cases Ordering.lt = inl refl
Ordering-cases Ordering.eq = inr (inl refl)
Ordering-cases Ordering.gt = inr (inr refl)

-- Behind a key that is equal to the element, or greater, the scan finds nothing.
pub Above-le :
    (k p : Bytes) (t : Subnodes)
    → (strcasecmp p k ≡ Ordering.lt) ⊎ (lower p ≡ lower k)
    → Above k t
    → Above p t
Above-le k p nil h a = tt
Above-le k p (leaf j v e r) (inl h) a = (strcasecmp_trans p k j h a.0, Above-le k p r (inl h) a.1)
Above-le k p (leaf j v e r) (inr h) a = (strcasecmp_congr p k j h ∙ a.0, Above-le k p r (inr h) a.1)
Above-le k p (node j c r) (inl h) a = (strcasecmp_trans p k j h a.0, Above-le k p r (inl h) a.1)
Above-le k p (node j c r) (inr h) a = (strcasecmp_congr p k j h ∙ a.0, Above-le k p r (inr h) a.1)

pub locate-Above : (p : Bytes) (t : Subnodes) → IsValid t → Above p t → locate p t ≡ absent
unfolding locate
locate-Above p nil v a = refl
locate-Above p (leaf k w e r) v a =
    ground (arith, compare_part-strcasecmp k p v.0.ascii, strcasecmp-flip_lt p k a.0)
locate-Above p (node k c r) v a =
    ground (arith, compare_part-strcasecmp k p v.0.ascii, strcasecmp-flip_lt p k a.0)

-- The scan depends on the folded text of the element alone.
pub locate_congr :
    (p q : Bytes) (t : Subnodes) → IsValid t → lower p ≡ lower q → locate p t ≡ locate q t
unfolding locate
locate_congr p q nil v h = refl
locate_congr p q (leaf k w e r) v h = ground (
  arith,
  compare_part-strcasecmp k p v.0.ascii,
  compare_part-strcasecmp k q v.0.ascii,
  strcasecmp_congr_right k p q h,
  locate_congr p q r v.3 h,
)
locate_congr p q (node k c r) v h = ground (
  arith,
  compare_part-strcasecmp k p v.0.ascii,
  compare_part-strcasecmp k q v.0.ascii,
  strcasecmp_congr_right k p q h,
  locate_congr p q r v.3 h,
)

pub locate-IsValidSlot : (p : Bytes) (t : Subnodes) → IsValid t → IsValidSlot (locate p t)
unfolding locate
locate-IsValidSlot p nil v = tt
locate-IsValidSlot p (leaf k w e r) v = elim (Ordering-cases (compare_part k p)) [
  | inl l ↦ rw (l, IsValidSlot) (locate-IsValidSlot p r v.3)
  | inr (inl q) ↦ rw (q, IsValidSlot) v.1
  | inr (inr g) ↦ rw (g, IsValidSlot) tt
]
locate-IsValidSlot p (node k c r) v = elim (Ordering-cases (compare_part k p)) [
  | inl l ↦ rw (l, IsValidSlot) (locate-IsValidSlot p r v.3)
  | inr (inl q) ↦ rw (q, IsValidSlot) v.1
  | inr (inr g) ↦ rw (g, IsValidSlot) tt
]

-- One slot written in front of an array is what the scan finds for its key.
pub locate-put_slot :
    (k p : Bytes) (s : Slot) (t : Subnodes)
    → IsAscii k
    → lower k ≡ lower p
    → IsValid t
    → Above k t
    → locate p (put_slot k s t) ≡ s
unfolding locate put_slot
locate-put_slot k p absent t n e v a = locate-Above p t v (Above-le k p t (inr (sym e)) a)
locate-put_slot k p (is_leaf w b) t n e v a =
    ground (arith, compare_part-strcasecmp k p n, strcasecmp_refl k p e)
locate-put_slot k p (is_node c) t n e v a =
    ground (arith, compare_part-strcasecmp k p n, strcasecmp_refl k p e)

-- The scan stops before an array whose keys are all greater.
pub locate-before :
    (k q : Bytes) (t : Subnodes)
    → IsValid t
    → Above k t
    → strcasecmp k q ≡ Ordering.gt
    → locate q t ≡ absent
locate-before k q t v a g = locate-Above q t v (Above-le k q t (inl (strcasecmp-flip_gt k q g)) a)

-- For another key the scan goes as it would without the slot.
pub locate-put_slot_ne :
    (k q : Bytes) (s : Slot) (t : Subnodes)
    → IsAscii k
    → lower k ≢ lower q
    → IsValid t
    → Above k t
    → locate q (put_slot k s t) ≡ locate q t
unfolding locate put_slot
locate-put_slot_ne k q absent t n e v a = refl
locate-put_slot_ne k q s t n e v a =
    ground (arith, compare_part-strcasecmp k q n, strcasecmp-eq k q, locate-before k q t v a)

-- `locate` at the front of an array.
pub locate-skip :
    (k q : Bytes) (s : Slot) (t u : Subnodes)
    → locate q t ≡ locate q u
    → locate q (put_slot k s t) ≡ locate q (put_slot k s u)
unfolding locate put_slot
locate-skip k q absent t u e = e
locate-skip k q s t u e = ground arith

-- The outcome of a step that was put back at the front of an array.
pub put_back-eq :
    (key : Bytes) (rest : Subnodes) (o : Option (Code × Slot)) {code : Code} {t' : Subnodes}
    → put_back key rest o ≡ some (code, t')
    → (s : Slot) × (o ≡ some (code, s)) × (t' ≡ put_slot key s rest)
put_back-eq key rest none h = cc
put_back-eq key rest (some (code, s)) h = (s, cc, cc)

-- What an update does, in terms of the scans before and after it.
pub record Updates (p : Bytes) (step : SlotStep) (t : Subnodes) (code : Code) (t' : Subnodes)
    : Type 0 where
  pub slot : Slot
  pub ran : step (locate p t) ≡ some (code, slot)
  pub here : locate p t' ≡ slot
  pub elsewhere : (q : Bytes) → lower p ≢ lower q → locate q t' ≡ locate q t
