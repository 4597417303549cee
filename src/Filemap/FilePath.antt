-- ===== src/Filemap/FilePath.antt =====
-- How `Set`, `Get` and `Delete` of src/pextlib1.0/filemap.c take a path apart: each level of the
-- recursion skips slashes, cuts out one element, and goes on behind the slash that ends it.
use mac_ports_fork.CString.{Bytes, lower}
use mac_ports_fork.Filemap.Tree.Slots.{IsName}
use mac_ports_fork.Prelude.{Bool, true, false, ◌&&◌, [], ◌∷◌, ◌++◌, ◌==◌, ◌≡◌, ◌↔◌, arith}

-- What is left of a path: nothing, a last element, or an element with a slash behind it and the
-- rest, on which the next level of the recursion works.
pub data Steps : Type 0 where
  stop : Steps
  file : Bytes → Steps
  dir : Bytes → Steps → Steps

-- `skip_slashes` is the first loop over the path, `cut_part` the second, with the element so far.
unfoldable mutual
  pub skip_slashes : Bytes → Steps
  skip_slashes [] = stop
  skip_slashes (c ∷ cs) = elim (c == b'/') [ true ↦ skip_slashes cs | false ↦ cut_part (c ∷ []) cs ]

  pub cut_part : Bytes → Bytes → Steps
  cut_part part [] = file part
  cut_part part (c ∷ cs) = elim (c == b'/') [
    | true ↦ dir part (skip_slashes cs)
    | false ↦ cut_part (part ++ c ∷ []) cs
  ]

unfoldable pub steps : Bytes → Steps
unfolding skip_slashes cut_part
steps = skip_slashes

-- Every element of the path is one that a key can hold.
abbrev pub AreNames : Steps → Type 0
AreNames stop = Unit
AreNames (file part) = IsName part
AreNames (dir part rest) = IsName part × AreNames rest

-- Equality of byte strings.
abbrev pub same_bytes : Bytes → Bytes → Bool
same_bytes [] [] = true
same_bytes (c ∷ s) (d ∷ t) = (c == d) && same_bytes s t
same_bytes [] (d ∷ t) = false
same_bytes (c ∷ s) [] = false

-- Two paths name the same file, whatever the case of their letters and the slashes between them.
abbrev pub same_path : Steps → Steps → Bool
same_path (file p) (file q) = same_bytes (lower p) (lower q)
same_path (dir p s) (dir q r) = same_bytes (lower p) (lower q) && same_path s r
same_path _ _ = false

-- The first path is the second, or a directory above it.
abbrev pub covers : Steps → Steps → Bool
covers (file p) (file q) = same_bytes (lower p) (lower q)
covers (file p) (dir q r) = same_bytes (lower p) (lower q)
covers (dir p s) (dir q r) = same_bytes (lower p) (lower q) && covers s r
covers _ _ = false

pub same_bytes_iff : (s t : Bytes) → (same_bytes s t ≡ true) ↔ (s ≡ t)
same_bytes_iff [] [] = ground arith
same_bytes_iff [] (d ∷ t) = ground arith
same_bytes_iff (c ∷ s) [] = ground arith
same_bytes_iff (c ∷ s) (d ∷ t) = ground (arith, same_bytes_iff s t)
