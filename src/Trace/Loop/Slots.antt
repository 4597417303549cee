-- ===== src/Trace/Loop/Slots.antt =====
-- The slots for sockets of `TracelibRunCmd` of src/pextlib1.0/tracelib.c, one arrival at a time.
use mac_ports_fork.Prelude.{
  same_result, ℕ, zero, suc, ◌-◌, ◌<◌, ◌≤◌, ◌≡◌, refl, ap, ◌⊎◌, inl, inr, List, [], ◌∷◌, ◌++◌,
  Option, none, some, Bool, true, false, Bool-cases, Option-cases, ◌==◌, arith, length,
  length-append, get_or,
}
use mac_ports_fork.Trace.Loop.{max_sockets, reuse_slot, store}

-- A slot that is taken again: the others stay as they are.
abbrev Reused : ℕ → List ℕ → List ℕ → Type 0
Reused s socks socks' =
    (length socks' ≡ length socks)
    × ((j : ℕ) × (get_or socks' j 0 ≡ s))
    × ((i : ℕ) → (get_or socks i 0 == 0) ≡ false → get_or socks' i 0 ≡ get_or socks i 0)

reuse_slot-Reused :
    (s : ℕ) (socks socks' : List ℕ) → reuse_slot s socks ≡ some socks' → Reused s socks socks'
unfolding reuse_slot
reuse_slot-Reused s [] socks' e = absurd cc
reuse_slot-Reused s (t ∷ socks) socks' e =
    by_slot (t == 0) refl (reuse_slot s socks) (λ rest k. reuse_slot-Reused s socks rest k) refl e
  where
    here :
        (i : ℕ)
        → (t == 0) ≡ true
        → (get_or (t ∷ socks) i 0 == 0) ≡ false
        → get_or (s ∷ socks) i 0 ≡ get_or (t ∷ socks) i 0
    here zero z n = absurd cc
    here (suc i) z n = refl

    behind :
        (rest : List ℕ)
        → ((i : ℕ) → (get_or socks i 0 == 0) ≡ false → get_or rest i 0 ≡ get_or socks i 0)
        → (i : ℕ) → (get_or (t ∷ socks) i 0 == 0) ≡ false
        → get_or (t ∷ rest) i 0 ≡ get_or (t ∷ socks) i 0
    behind rest h zero n = refl
    behind rest h (suc i) n = h i n

    by_slot :
        (b : Bool)
        → (t == 0) ≡ b
        → (o : Option (List ℕ))
        → ((rest : List ℕ) → reuse_slot s socks ≡ some rest → Reused s socks rest)
        → reuse_slot s socks ≡ o
        → (elim b [
          | true ↦ some (s ∷ socks)
          | false ↦ elim o [ none ↦ none | some socks'' ↦ some (t ∷ socks'') ]
        ])
          ≡ some socks'
        → Reused s (t ∷ socks) socks'
    by_slot true z o next k e =
        same_result (Reused s (t ∷ socks)) e (refl, (0, refl), λ i n. here i z n)
    by_slot false z none next k e = absurd cc
    by_slot false z (some rest) next k e =
        let r = next rest k in
        same_result (Reused s (t ∷ socks)) e (ap suc r.0, (suc r.1.0, r.1.1), behind rest r.2)

get_or-left :
    (socks : List ℕ) (s i : ℕ)
    → (get_or socks i 0 == 0) ≡ false
    → get_or (socks ++ s ∷ []) i 0 ≡ get_or socks i 0
get_or-left [] s i n = absurd cc
get_or-left (t ∷ socks) s zero n = refl
get_or-left (t ∷ socks) s (suc i) n = get_or-left socks s i n

get_or-last : (socks : List ℕ) (s : ℕ) → get_or (socks ++ s ∷ []) (length socks) 0 ≡ s
get_or-last [] s = refl
get_or-last (t ∷ socks) s = get_or-last socks s

-- A new socket has a slot then, unless all the slots are taken, where nothing changes.
abbrev pub HasSlot : ℕ → List ℕ → List ℕ → Type 0
HasSlot s socks socks' =
    ((length socks ≡ max_sockets - 1) × (socks' ≡ socks)) ⊎ ((j : ℕ) × (get_or socks' j 0 ≡ s))

-- With no more sockets than the array holds, a new one is stored within the bounds of the array, or turned away if
-- it is full, and every open connection keeps its slot.
pub store-HasSlot :
    (s i : ℕ) (socks : List ℕ)
    → length socks ≤ max_sockets - 1
    → (get_or socks i 0 == 0) ≡ false
    → (length (store s socks) ≤ max_sockets - 1)
      × (get_or (store s socks) i 0 ≡ get_or socks i 0)
      × HasSlot s socks (store s socks)
unfolding store
store-HasSlot s i socks h n = elim (Option-cases (reuse_slot s socks)) [
  | inr (rest, e) ↦
      let r = reuse_slot-Reused s socks rest e in
      rw (store, e) (omega (arith, h, r.0), r.2 i n, inr r.1)
  | inl e ↦ elim (Bool-cases (length socks == max_sockets - 1)) [
    | inl full ↦ rw (store, e, full) (h, refl, inl (ground (arith, full), refl))
    | inr room ↦
        let less : length socks < max_sockets - 1 = ground (arith, h, room) in
        rw (store, e, room)
          (
            omega (arith, less, length-append socks (s ∷ [])),
            get_or-left socks s i n,
            inr (length socks, get_or-last socks s),
          )
  ]
]

pub length-store :
    (s : ℕ) (socks : List ℕ)
    → length socks ≤ max_sockets - 1
    → length (store s socks) ≤ max_sockets - 1
unfolding store
length-store s socks h = elim (Option-cases (reuse_slot s socks)) [
  | inr (rest, e) ↦ rw (store, e) (omega (arith, h, (reuse_slot-Reused s socks rest e).0))
  | inl e ↦ elim (Bool-cases (length socks == max_sockets - 1)) [
    | inl full ↦ rw (store, e, full) h
    | inr room ↦
        let less : length socks < max_sockets - 1 = ground (arith, h, room) in
        rw (store, e, room) (omega (arith, less, length-append socks (s ∷ [])))
  ]
]
