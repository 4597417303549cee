-- ===== src/Filemap/Storage/Bounds.antt =====
-- `LoadNode` of src/pextlib1.0/filemap.c on any bytes: the recursion ends, and what it loads fits.
use mac_ports_fork.CString.{Bytes}
use mac_ports_fork.Filemap.Storage.{
  c_string, load_string, load_kind, load_byte, load_count, load_nodes, got, failed, overrun,
  out_of_fuel, refuse_if, ◌>>=◌, inside, Cursor, Read,
}
use mac_ports_fork.Filemap.Storage.Image.{IsString}
use mac_ports_fork.Filemap.Tree.{Subnodes, nil, leaf, node, Code, count, name_max}
use mac_ports_fork.Prelude.{
  ℕ, zero, suc, ◌≤◌, ◌<◌, ◌==◌, ◌≡◌, refl, arith, [], ◌∷◌, Bool, true, false, not, ◌&&◌, length,
  All, ltb, Bool-cases, inl, inr,
}

-- The run kept within its fuel, and `P` holds of what it has read, if it has read something.
abbrev pub Ensures {ℓ} : {A : Type ℓ} → (A → Type 0) → Read A → Type 0
Ensures P (got a) = P a
Ensures P (failed code set) = Unit
Ensures P overrun = Unit
Ensures P out_of_fuel = ⊥

Ensures-bind {ℓ κ} :
    {A : Type ℓ} {B : Type κ} (P : A → Type 0) (Q : B → Type 0) (r : Read A) (f : A → Read B)
    → Ensures P r
    → ((a : A) → P a → Ensures Q (f a))
    → Ensures Q (r >>= f)
Ensures-bind P Q (got a) f h k = k a h
Ensures-bind P Q (failed code set) f h k = tt
Ensures-bind P Q overrun f h k = tt
Ensures-bind P Q out_of_fuel f h k = h

Ensures-refuse {κ} :
    {B : Type κ} (Q : B → Type 0) (b : Bool) (code : Code) (f : Unit {0} → Read B)
    → (b ≡ false → Ensures Q (f tt))
    → Ensures Q (refuse_if b code >>= f)
Ensures-refuse Q true code f h = tt
Ensures-refuse Q false code f h = h refl

Ensures-inside {ℓ} : {A : Type ℓ} (P : A → Type 0) (r : Read A) → Ensures P r → Ensures P (inside r)
Ensures-inside P (got a) h = h
Ensures-inside P (failed code set) h = h
Ensures-inside P overrun h = h
Ensures-inside P out_of_fuel h = h

c_string-Ensures :
    (buf : Bytes)
    → Ensures (λ (s, rest). All (λ c. 0 < c) s × (length rest ≤ length buf)) (c_string buf)
unfolding c_string
c_string-Ensures [] = tt
c_string-Ensures (c ∷ cs) = elim (Bool-cases (c == 0)) [
  | inl e ↦ rw e (tt, omega arith)
  | inr n ↦ rw n (
      Ensures-bind _ _ (c_string cs) _ (c_string-Ensures cs)
        λ (s, rest) h. ((ground arith, h.0), omega (arith, h.1)))
]

-- A reader that leaves no more of the buffer than there was.
abbrev Shortens {ℓ} : {A : Type ℓ} → ℕ → (A → Type 0) → A × Cursor → Type 0
Shortens n P (a, (rest, left)) = P a × (length rest ≤ n)

load_string-Ensures : (cur : Cursor) → Ensures (Shortens (length cur.0) IsString) (load_string cur)
unfolding load_string
load_string-Ensures (buf, left) =
    Ensures-bind _ _ (c_string buf) _ (c_string-Ensures buf) λ (s, rest) h.
      Ensures-refuse _ (ltb name_max (length s)) _ _
        λ fits. Ensures-refuse _ (ltb left (length s)) _ _ λ _. ((h.0, ground arith), h.1)

load_byte-Ensures : (cur : Cursor) → Ensures (λ (b, c). length c.0 < length cur.0) (load_byte cur)
unfolding load_byte
load_byte-Ensures ([], left) = tt
load_byte-Ensures (b ∷ buf, left) = omega arith

load_kind-Ensures : (cur : Cursor) → Ensures (λ (b, c). length c.0 < length cur.0) (load_kind cur)
unfolding load_kind
load_kind-Ensures (buf, left) = Ensures-refuse _ (left == 0) _ _ λ _.
    Ensures-bind _ _ (load_byte (buf, left)) _ (load_byte-Ensures (buf, left))
      λ (b, c) h. Ensures-refuse _ (not (b == 1) && not (b == 0)) _ _ λ _. h

load_count-Ensures : (cur : Cursor) → Ensures (λ (b, c). length c.0 ≤ length cur.0) (load_count cur)
unfolding load_count
load_count-Ensures (buf, left) = Ensures-refuse _ (ltb left 4) _ _ λ _.
    Ensures-bind _ _ (load_byte (buf, left)) _ (load_byte-Ensures (buf, left)) λ (a, c₁) h₁.
      Ensures-bind _ _ (load_byte c₁) _ (load_byte-Ensures c₁) λ (b, c₂) h₂.
        Ensures-bind _ _ (load_byte c₂) _ (load_byte-Ensures c₂) λ (c, c₃) h₃.
          Ensures-bind _ _ (load_byte c₃) _ (load_byte-Ensures c₃) λ (d, c₄) h₄. omega arith

-- Every key and every value of the tree is a string that its array can hold.
abbrev pub HoldsStrings : Subnodes → Type 0
HoldsStrings nil = Unit
HoldsStrings (leaf key value ended rest) = IsString key × IsString value × HoldsStrings rest
HoldsStrings (node key subs rest) = IsString key × HoldsStrings subs × HoldsStrings rest

abbrev pub LoadsWithin : ℕ → ℕ → Subnodes × Cursor → Type 0
LoadsWithin n size (t, (rest, left)) = HoldsStrings t × (count t ≡ n) × (length rest ≤ size)

load_nodes-Ensures :
    (f n : ℕ) (cur : Cursor)
    → length cur.0 < f
    → Ensures (LoadsWithin n (length cur.0)) (load_nodes f n cur)
unfolding load_nodes count
load_nodes-Ensures zero n cur h = absurd (omega arith)
load_nodes-Ensures (suc f) zero cur h = (tt, refl, omega arith)
load_nodes-Ensures (suc f) (suc n) cur h =
    Ensures-bind _ _ (load_kind cur) _ (load_kind-Ensures cur) λ (kind, c₁) h₁.
      Ensures-bind _ _ (load_string c₁) _ (load_string-Ensures c₁) λ (key, c₂) h₂.
        elim (Bool-cases (kind == 1)) [
          | inl y ↦ rw y (
              Ensures-bind _ _ (load_string c₂) _ (load_string-Ensures c₂) λ (value, c₃) h₃.
                Ensures-bind _ _ (load_nodes f n c₃) _
                  (load_nodes-Ensures f n c₃ (omega (arith, h₁, h₂.1, h₃.1)))
                  λ (rest, c₄) h₄.
                    ((h₂.0, h₃.0, h₄.0), omega (arith, h₄.1), omega (arith, h₁, h₂.1, h₃.1, h₄.2)))
          | inr no_leaf ↦ rw no_leaf (
              Ensures-bind _ _ (load_count c₂) _ (load_count-Ensures c₂) λ (many, c₃) h₃.
                Ensures-bind (LoadsWithin many (length c₃.0)) _ (inside (load_nodes f many c₃)) _
                  (Ensures-inside (LoadsWithin many (length c₃.0)) (load_nodes f many c₃)
                    (load_nodes-Ensures f many c₃ (omega (arith, h₁, h₂.1, h₃))))
                  λ (subs, c₄) h₄.
                    Ensures-bind _ _ (load_nodes f n c₄) _
                      (load_nodes-Ensures f n c₄ (omega (arith, h₁, h₂.1, h₃, h₄.2)))
                      λ (rest, c₅) h₅. (
                        (h₂.0, h₄.0, h₅.0),
                        omega (arith, h₅.1),
                        omega (arith, h₁, h₂.1, h₃, h₄.2, h₅.2),
                      ))
        ]

-- On any buffer, with fuel above its length, the run of `LoadNode` ends. If it loads trees, there
-- are as many as were asked for, and every key and value in them has at most NAME_MAX bytes, so no
-- copy leaves its array.
pub load_nodes_within :
    (f n : ℕ) (cur : Cursor)
    → length cur.0 < f
    → Ensures (LoadsWithin n (length cur.0)) (load_nodes f n cur)
load_nodes_within f n cur h = load_nodes-Ensures f n cur h
