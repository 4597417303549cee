-- ===== src/Filemap/Storage/Image.antt =====
-- The bytes of a tree as `SaveNode` of src/pextlib1.0/filemap.c lays them out, and their reading back
-- by `LoadNode`.
use mac_ports_fork.CString.{Bytes}
use mac_ports_fork.Filemap.Storage.{
  count_bytes, c_string, load_string, load_kind, load_byte, load_count, load_nodes, got, ◌>>=◌,
  inside,
}
use mac_ports_fork.Filemap.Tree.{Subnodes, nil, leaf, node, count, name_max}
use mac_ports_fork.Prelude.{
  ℕ, zero, suc, ◌+◌, ◌-◌, ◌*◌, ◌≤◌, ◌<◌, ◌≡◌, refl, ap, ◌⊎◌, inl, inr, ◌/◌, ◌%◌, arith, [], ◌∷◌,
  ◌++◌, false, length, All, append_assoc, length-append, ltb,
}

-- The file's bytes for an array of subnodes.
abbrev pub image : Subnodes → Bytes
image nil = []
image (leaf key value ended rest) = 1 ∷ (key ++ (0 ∷ (value ++ (0 ∷ image rest))))
image (node key subs rest) =
    0 ∷ (key ++ (0 ∷ (count_bytes (count subs) ++ (image subs ++ image rest))))

-- The tree as it comes back: the last byte of each `fValue` is no longer known.
abbrev pub reloaded : Subnodes → Subnodes
reloaded nil = nil
reloaded (leaf key value ended rest) = leaf key value false (reloaded rest)
reloaded (node key subs rest) = node key (reloaded subs) (reloaded rest)

abbrev pub IsString : Bytes → Type 0
IsString s = All (λ c. 0 < c) s × (length s ≤ name_max)

-- Trees that the format can express: strings that fit, and counts below 2 ^ 32.
abbrev pub IsStorable : Subnodes → Type 0
IsStorable nil = Unit
IsStorable (leaf key value ended rest) = IsString key × IsString value × IsStorable rest
IsStorable (node key subs rest) =
    IsString key × (count subs < 4294967296) × IsStorable subs × IsStorable rest

c_string_append : (s rest : Bytes) → All (λ c. 0 < c) s → c_string (s ++ (0 ∷ rest)) ≡ got (s, rest)
unfolding c_string
c_string_append [] rest h = refl
c_string_append (c ∷ s) rest h = ground (arith, c_string_append s rest h.1)

load_string_append :
    (s rest : Bytes) (left : ℕ)
    → IsString s
    → length s ≤ left
    → load_string (s ++ (0 ∷ rest), left) ≡ got (s, (rest, left - length s))
unfolding load_string
load_string_append s rest left h l = rw (c_string_append s rest h.0) (ground (arith, h.1))

count_parts :
    (n : ℕ)
    → n < 4294967296
    → (n / 16777216 % 256) * 16777216 + (n / 65536 % 256) * 65536 + (n / 256 % 256) * 256 + n % 256
      ≡ n
count_parts n h = omega arith

load_count_append :
    (n left : ℕ) (rest : Bytes)
    → n < 4294967296
    → 4 ≤ left
    → load_count (count_bytes n ++ rest, left) ≡ got (n, (rest, left - 4))
unfolding load_count count_bytes load_byte
load_count_append n left rest h l =
    let e : ltb left 4 ≡ false = ground arith in
    let e' : left - 1 - 1 - 1 - 1 ≡ left - 4 = omega arith in
    rw e (ap got (λ i. (count_parts n h i, (rest, e' i))))

load_kind-eq :
    (b left : ℕ) (rest : Bytes)
    → (b ≡ 0) ⊎ (b ≡ 1)
    → 0 < left
    → load_kind (b ∷ rest, left) ≡ got (b, (rest, left - 1))
unfolding load_kind load_byte
load_kind-eq b left rest h l = ground arith

-- One call of `LoadNode` on a leaf, and on a node, with what follows it in the buffer.
load_leaf :
    (f n left : ℕ) (key value more : Bytes)
    → IsString key
    → IsString value
    → 1 + length key + length value ≤ left
    → load_nodes (suc f) (suc n) (1 ∷ (key ++ (0 ∷ (value ++ (0 ∷ more)))), left) ≡ (
        load_nodes f n (more, left - 1 - length key - length value) >>= λ (rest, c).
        got (leaf key value false rest, c))
unfolding load_nodes
load_leaf f n left key value more hk hv l =
    rw
      (
        load_kind-eq 1 left (key ++ (0 ∷ (value ++ (0 ∷ more)))) (inr refl) (omega arith),
        ◌>>=◌,
        load_string_append key (value ++ (0 ∷ more)) (left - 1) hk (omega arith),
        ◌>>=◌,
        load_string_append value more (left - 1 - length key) hv (omega arith),
      )
      refl

load_node :
    (f n left many : ℕ) (key more : Bytes)
    → IsString key
    → many < 4294967296
    → 5 + length key ≤ left
    → load_nodes (suc f) (suc n) (0 ∷ (key ++ (0 ∷ (count_bytes many ++ more))), left) ≡ (
        inside (load_nodes f many (more, left - 1 - length key - 4)) >>= λ (subs, c).
        load_nodes f n c >>= λ (rest, c'). got (node key subs rest, c'))
unfolding load_nodes
load_node f n left many key more hk hm l =
    rw
      (
        load_kind-eq 0 left (key ++ (0 ∷ (count_bytes many ++ more))) (inl refl) (omega arith),
        ◌>>=◌,
        load_string_append key (count_bytes many ++ more) (left - 1) hk (omega arith),
        ◌>>=◌,
        load_count_append many (left - 1 - length key) more hm (omega arith),
      )
      refl

-- What a run of `LoadNode` reads back off the front of a buffer, and that it does not lose count of
-- more bytes than it has read.
abbrev pub ReadsBack : Subnodes → Type 0
ReadsBack t =
    (f left : ℕ) (more : Bytes)
    → length (image t) < f
    → length (image t) ≤ left
    → (left' : ℕ) × (load_nodes f (count t) (image t ++ more, left)
        ≡ got (reloaded t, (more, left')))
      × (left ≤ left' + length (image t))

leaf_image :
    (key value rest more : Bytes)
    → (1 ∷ (key ++ (0 ∷ (value ++ (0 ∷ rest))))) ++ more
      ≡ 1 ∷ (key ++ (0 ∷ (value ++ (0 ∷ (rest ++ more)))))
leaf_image key value rest more = simp append_assoc

node_image :
    (key bytes subs rest more : Bytes)
    → (0 ∷ (key ++ (0 ∷ (bytes ++ (subs ++ rest))))) ++ more
      ≡ 0 ∷ (key ++ (0 ∷ (bytes ++ (subs ++ (rest ++ more)))))
node_image key bytes subs rest more = simp append_assoc

length-leaf_image :
    (key value rest : Bytes)
    → length (1 ∷ (key ++ (0 ∷ (value ++ (0 ∷ rest)))))
      ≡ 3 + length key + length value + length rest
length-leaf_image key value rest =
    omega (arith, length-append key (0 ∷ (value ++ (0 ∷ rest))), length-append value (0 ∷ rest))

length-node_image :
    (key subs rest : Bytes) (n : ℕ)
    → length (0 ∷ (key ++ (0 ∷ (count_bytes n ++ (subs ++ rest)))))
      ≡ 6 + length key + length subs + length rest
unfolding count_bytes
length-node_image key subs rest n =
    omega
      (arith, length-append key (0 ∷ (count_bytes n ++ (subs ++ rest))), length-append subs rest)

-- Reading back the image of a tree gives the tree, whatever follows it.
pub load_nodes-image : (t : Subnodes) → IsStorable t → ReadsBack t
unfolding count
load_nodes-image nil h zero left more f l = absurd (omega arith)
load_nodes-image nil h (suc f) left more p l = (left, unfold load_nodes in refl, omega arith)
load_nodes-image (leaf k v e r) h zero left more p l = absurd (omega arith)
load_nodes-image (leaf k v e r) h (suc f) left more p l =
    let len = length-leaf_image k v (image r) in
    let (left', ran, bound) =
      load_nodes-image r h.2 f (left - 1 - length k - length v) more (omega (arith, len))
        (omega (arith, len)) in
    (
      left',
      rw
          (
            leaf_image k v (image r) more,
            load_leaf f (count r) left k v (image r ++ more) h.0 h.1 (omega (arith, len)),
            ran,
          )
          refl,
      omega (arith, len),
    )
load_nodes-image (node k c r) h zero left more p l = absurd (omega arith)
load_nodes-image (node k c r) h (suc f) left more p l =
    let len = length-node_image k (image c) (image r) (count c) in
    let (left', ran, bound) =
      load_nodes-image c h.2 f (left - 1 - length k - 4) (image r ++ more) (omega (arith, len))
        (omega (arith, len)) in
    let (left'', ran', bound') =
      load_nodes-image r h.3 f left' more (omega (arith, len)) (omega (arith, len)) in
    (
      left'',
      rw
          (
            node_image k (count_bytes (count c)) (image c) (image r) more,
            load_node f (count r) left (count c) k (image c ++ (image r ++ more)) h.0 h.1
                (omega (arith, len)),
            ran,
            ◌>>=◌,
            ran',
          )
          refl,
      omega (arith, len),
    )
