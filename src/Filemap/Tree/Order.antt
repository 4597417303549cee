-- ===== src/Filemap/Tree/Order.antt =====
-- Over ASCII keys, `compare_part` is the order of case-folded texts.
use mac_ports_fork.CString.{Bytes, IsAscii, strncasecmp, strcasecmp, tolower}
use mac_ports_fork.Filemap.Tree.{compare_part, sign_of_char}
use mac_ports_fork.Prelude.{◌≡◌, refl, [], ◌∷◌, arith, compare, Ordering}

compare_part-cons :
    (c d : _) (s t : Bytes)
    → compare_part (c ∷ s) (d ∷ t) ≡ (elim (compare (tolower c) (tolower d)) [
      | Ordering.lt ↦ Ordering.lt
      | Ordering.eq ↦ compare_part s t
      | Ordering.gt ↦ Ordering.gt
    ])
unfolding compare_part strncasecmp
compare_part-cons c d s t = ground arith

-- The signed test of one byte behind the element decides as the order of texts does.
pub compare_part-strcasecmp :
    (key part : Bytes) → IsAscii key → compare_part key part ≡ strcasecmp key part
unfolding strcasecmp
compare_part-strcasecmp [] [] h = unfold compare_part strncasecmp sign_of_char in refl
compare_part-strcasecmp [] (d ∷ t) h = unfold compare_part strncasecmp in refl
compare_part-strcasecmp (c ∷ s) [] h = unfold compare_part strncasecmp sign_of_char in ground arith
compare_part-strcasecmp (c ∷ s) (d ∷ t) h =
    ground (arith, compare_part-cons c d s t, compare_part-strcasecmp s t h.1)
