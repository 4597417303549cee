-- ===== src/Tests/StorageTests.antt =====
-- Runs of src/pextlib1.0/filemap.c: files and commands.
use mac_ports_fork.CString.{Bytes}
use mac_ports_fork.Filemap.Access.{get}
use mac_ports_fork.Filemap.Access.Codes.{set_code}
use mac_ports_fork.Filemap.Access.GetSet.{is_success}
use mac_ports_fork.Filemap.Commands.{filemap_set, filemap_cmd, set_cmd, get_cmd}
use mac_ports_fork.Filemap.Commands.Frames.{ReadOnlyIsClean, EndsClean}
use mac_ports_fork.Filemap.Commands.Invariant.{filemap_cmd-clean}
use mac_ports_fork.Filemap.Commands.Session.{get_cmd-set_cmd}
use mac_ports_fork.Filemap.Disk.{
  works, fails, Disk, Outcome, open_new, write, rename, put_file, returned,
}
use mac_ports_fork.Filemap.FilePath.{steps, same_bytes, same_path}
use mac_ports_fork.Filemap.Object.{
  FilemapObject, filemap, text, empty, World, Status, tcl_ok, answer, outcome_disk,
}
use mac_ports_fork.Filemap.Storage.{
  save, temp_path, write_all, save_nodes, signature, version, load_nodes, tree, load, count_bytes,
}
use mac_ports_fork.Filemap.Storage.Atomic.{save_atomic, SavesAtomically}
use mac_ports_fork.Filemap.Storage.Bounds.{Ensures, LoadsWithin, load_nodes_within}
use mac_ports_fork.Filemap.Storage.RoundTrip.{load-save}
use mac_ports_fork.Filemap.Tree.{Subnodes, nil, leaf, success, count}
use mac_ports_fork.Prelude.{
  Bool, true, false, ◌&&◌, ◌≡◌, refl, List, [], ◌∷◌, ◌++◌, none, some, arith, if◌then◌else◌, subst,
  ◌<◌,
}
use mac_ports_fork.Tests.FilemapTests.{two_files, two_files-IsValid, spelling, spelling-AreNames}

abbrev db : Bytes
db = b'd' ∷ b'b' ∷ []

abbrev no_files : Disk
no_files = record { files = λ p. none; attempts = [] }

temp_differs : same_bytes (temp_path db) db ≡ false
unfolding temp_path
temp_differs = refl

save_atomic_example : SavesAtomically db [] two_files no_files (save db [] two_files no_files)
save_atomic_example = save_atomic db [] two_files no_files tt temp_differs

abbrev saved : Disk
saved = outcome_disk (save db [] two_files no_files)

save_finishes : save db [] two_files no_files ≡ Outcome.finished saved
unfolding save open_new write_all write save_nodes rename returned put_file
save_finishes = refl

no_attempts_left : saved.attempts ≡ []
unfolding save open_new write_all write save_nodes rename returned put_file
no_attempts_left = refl

few : count two_files < 4294967296
unfolding count
few = omega arith

few_inside : count (leaf (b'b' ∷ []) (b'p' ∷ []) true nil) < 4294967296
unfolding count
few_inside = omega arith

load-save_example :
    (t : Subnodes) × (d : Disk) × (load db saved ≡ some (success, tree [] t, d))
    × ((other : Bytes) → get t other ≡ get two_files other)
load-save_example =
    load-save db [] two_files no_files saved tt temp_differs save_finishes no_attempts_left
      (omega arith) few
      (omega arith, few_inside, (omega arith, omega arith, tt), (omega arith, omega arith, tt))

-- A file that ends behind the kind of a leaf.
load_nodes_within_example : Ensures (LoadsWithin 1 1) (load_nodes 2 1 (1 ∷ [], 1))
load_nodes_within_example = load_nodes_within 2 1 (1 ∷ [], 1) (omega arith)

-- A write that comes short with `errno` 0: `Save` reports success, and the database has lost the
-- leaf that its count announces.
abbrev one_file : Subnodes
one_file = leaf (b'c' ∷ []) (b'q' ∷ []) true nil

abbrev full_disk : Disk
full_disk = record {
  files = λ p. none;
  attempts = works ∷ works ∷ works ∷ works ∷ works ∷ works ∷ fails success 0 ∷ [];
}

short_write :
    (outcome_disk (save db [] one_file full_disk)).files db
    ≡ some (signature ++ (version ++ (0 ∷ 0 ∷ 0 ∷ 0 ∷ 0 ∷ 1 ∷ [])))
unfolding save open_new write_all write save_nodes rename returned put_file temp_path count_bytes
    count
short_write = refl

-- A variable "m" that holds a map.
abbrev map_object : Bool → FilemapObject
map_object read_only = record {
  ref_count = 1;
  filemap_path = db;
  lock = none;
  root = tree [] two_files;
  is_read_only = read_only;
  is_dirty = false;
  is_ram_only = false;
}

abbrev m : Bytes
m = b'm' ∷ []

abbrev world : Bool → World
world read_only = record {
  variables = λ n. if same_bytes m n then some (filemap (map_object read_only)) else none;
  reply = empty;
  disk = no_files;
}

same_object :
    (b : Bool) (x o : FilemapObject)
    → (if b then some (filemap x) else none) ≡ some (filemap o)
    → x ≡ o
same_object true x o e = cc
same_object false x o e = cc

world-clean : (read_only : Bool) → ReadOnlyIsClean (world read_only).variables
world-clean read_only n o e r =
    let same = same_object (same_bytes m n) (map_object read_only) o e in
    subst (λ (x : FilemapObject). x.is_dirty ≡ false) same refl

abbrev set_words : List Bytes
set_words = [] ∷ [] ∷ m ∷ spelling ∷ (b'r' ∷ []) ∷ []

filemap_cmd-clean_example : EndsClean (filemap_cmd (λ s. some filemap_set) set_words (world false))
filemap_cmd-clean_example =
    filemap_cmd-clean (λ s. some filemap_set) set_words (world false) (world-clean false)

get_cmd-set_cmd_example :
    (status : Status) × (w' : World) × (set_cmd set_words (world false) ≡ some (status, w'))
    × ((other : Bytes)
        → get_cmd ([] ∷ [] ∷ m ∷ other ∷ []) w'
          ≡ some (
            tcl_ok,
            answer
                (text (
                  if is_success (set_code (steps spelling) two_files)
                    && same_path (steps spelling) (steps other)
                  then some (b'r' ∷ [])
                  else get two_files other))
                w',
          ))
get_cmd-set_cmd_example =
    get_cmd-set_cmd [] [] m spelling (b'r' ∷ []) (world false) (map_object false) [] two_files refl
      refl refl two_files-IsValid spelling-AreNames (omega arith) (omega arith)
