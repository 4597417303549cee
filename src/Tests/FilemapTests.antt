-- ===== src/Tests/FilemapTests.antt =====
-- Runs of src/pextlib1.0/filemap.c: the tree.
use mac_ports_fork.CString.{Bytes, strncasecmp, strcasecmp, tolower}
use mac_ports_fork.Filemap.Access.{get, set, delete, copy_value, list_paths}
use mac_ports_fork.Filemap.Access.Codes.{code_of, set_code, delete_code, set_total, delete_outcome}
use mac_ports_fork.Filemap.Access.GetDelete.{get-delete}
use mac_ports_fork.Filemap.Access.GetSet.{get-set, is_success}
use mac_ports_fork.Filemap.FilePath.{steps, AreNames, same_path, covers}
use mac_ports_fork.Filemap.Tree.{
  Subnodes, nil, leaf, node, success, compare_part, sign_of_char, name_max,
}
use mac_ports_fork.Filemap.Tree.Slots.{IsValid}
use mac_ports_fork.Prelude.{true, ◌&&◌, ◌≡◌, refl, [], ◌∷◌, none, some, arith, if◌then◌else◌, take}

-- "/a/b" holds "p", and "/c" holds "q".
abbrev pub two_files : Subnodes
two_files =
    node (b'a' ∷ []) (leaf (b'b' ∷ []) (b'p' ∷ []) true nil) (leaf (b'c' ∷ []) (b'q' ∷ []) true nil)

pub two_files-IsValid : IsValid two_files
unfolding strcasecmp tolower
two_files-IsValid = (
  omega arith,
  (omega arith, omega arith, tt, tt),
  (refl, tt),
  (omega arith, omega arith, tt, tt),
)

-- "//A/b", another spelling of "/a/b".
abbrev pub spelling : Bytes
spelling = b'/' ∷ b'/' ∷ b'A' ∷ b'/' ∷ b'b' ∷ []

pub spelling-AreNames : AreNames (steps spelling)
unfolding steps
spelling-AreNames = (omega arith, omega arith)

abbrev after_set : Subnodes
after_set =
    node (b'a' ∷ []) (leaf (b'b' ∷ []) (b'r' ∷ []) true nil) (leaf (b'c' ∷ []) (b'q' ∷ []) true nil)

set-spelling : set two_files spelling (b'r' ∷ []) ≡ some (success, after_set)
unfolding set copy_value compare_part strncasecmp sign_of_char tolower
set-spelling = refl

get-set_example :
    IsValid after_set
    × ((other : Bytes)
        → get after_set other ≡ (
            if is_success success && same_path (steps spelling) (steps other)
            then some (take name_max (b'r' ∷ []))
            else get two_files other))
get-set_example =
    get-set two_files spelling (b'r' ∷ []) two_files-IsValid spelling-AreNames (omega arith)
      set-spelling

abbrev after_delete : Subnodes
after_delete = leaf (b'c' ∷ []) (b'q' ∷ []) true nil

delete-spelling : delete two_files spelling ≡ some (success, after_delete)
unfolding delete compare_part strncasecmp sign_of_char tolower
delete-spelling = refl

get-delete_example :
    IsValid after_delete
    × ((other : Bytes)
        → get after_delete other ≡ (
            if is_success success && covers (steps spelling) (steps other)
            then none
            else get two_files other))
get-delete_example =
    get-delete two_files spelling two_files-IsValid spelling-AreNames delete-spelling

set_total_example :
    (t' : Subnodes) × (set two_files spelling (b'r' ∷ [])
      ≡ some (set_code (steps spelling) two_files, t'))
set_total_example = set_total two_files spelling (b'r' ∷ []) spelling-AreNames (omega arith)

delete_outcome_example :
    code_of (delete two_files spelling) ≡ delete_code (steps spelling) two_files
delete_outcome_example = delete_outcome two_files spelling

-- "/c/d" goes on behind the file "/c": `Delete` reads the leaf as a node.
delete_behind_file : delete two_files (b'/' ∷ b'c' ∷ b'/' ∷ b'd' ∷ []) ≡ none
unfolding delete compare_part strncasecmp sign_of_char tolower
delete_behind_file = refl

list_q : list_paths [] two_files (b'Q' ∷ []) ≡ (b'/' ∷ b'c' ∷ []) ∷ []
unfolding list_paths strcasecmp tolower
list_q = refl

-- With names outside ASCII the order of an array is none. The file "a\xc3" is set, then "a", which
-- the signed test puts behind it, then "az", which goes in front of both: then "a" is not found.
abbrev mixed : Subnodes
mixed =
    leaf (b'a' ∷ b'z' ∷ []) (b'3' ∷ []) true
      (leaf (b'a' ∷ 0xc3 ∷ []) (b'1' ∷ []) true (leaf (b'a' ∷ []) (b'2' ∷ []) true nil))

abbrev two_of_mixed : Subnodes
two_of_mixed = leaf (b'a' ∷ 0xc3 ∷ []) (b'1' ∷ []) true (leaf (b'a' ∷ []) (b'2' ∷ []) true nil)

set_behind :
    set (leaf (b'a' ∷ 0xc3 ∷ []) (b'1' ∷ []) true nil) (b'a' ∷ []) (b'2' ∷ [])
    ≡ some (success, two_of_mixed)
unfolding set copy_value compare_part strncasecmp sign_of_char tolower
set_behind = refl

set_in_front : set two_of_mixed (b'a' ∷ b'z' ∷ []) (b'3' ∷ []) ≡ some (success, mixed)
unfolding set copy_value compare_part strncasecmp sign_of_char tolower
set_in_front = refl

lost : get mixed (b'a' ∷ []) ≡ none
unfolding get compare_part strncasecmp sign_of_char tolower
lost = refl
