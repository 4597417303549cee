-- ===== src/Macho/Files.antt =====
-- `macho_parse_file` and `macho_strerror` of src/machista1.0/libmachista.c: a file is opened, mapped
-- and parsed, and a result is kept in the handle's hash map.
-- The hash map (src/machista1.0/hashmap.c, a third-party copy) is a parameter, and so is what the
-- system answers to `open`, `fstat` and `mmap`.
pub mod Cached
use mac_ports_fork.CString.{Bytes}
use mac_ports_fork.Prelude.{
  ◌>>=◌, ℕ, zero, suc, ◌+◌, ◌/◌, ◌≡◌, ◌≢◌, Option, none, some, List, [], ◌∷◌, length, ltb, Bool,
  true, false, if◌then◌else◌,
}
use mac_ports_fork.Macho.Mapping.{Host, Mapping}
use mac_ports_fork.Macho.Result.{
  Arch, State, Step, macho_success, macho_efile, macho_emmap, macho_emem,
}
use mac_ports_fork.Macho.Parse.{parse_macho}

-- `hashMapGet`, and `hashMapPut`: the map behind it, and whether it says that it has worked. What has
-- been put is found; no put changes what is found under another key. A put that says that it has
-- failed may have put its entry all the same.
pub record HashMap (Map : Type 0) : Type 0 where
  pub hash_map_get : Map → Bytes → Option (List Arch)
  pub hash_map_put : Map → Bytes → List Arch → Map × Bool
  pub get-put :
      (map : Map) (path : Bytes) (archs : List Arch)
      → (hash_map_put map path archs).1 ≡ true
      → hash_map_get (hash_map_put map path archs).0 path ≡ some archs
  pub get-put_other :
      (map : Map) (path other : Bytes) (archs : List Arch)
      → other ≢ path
      → hash_map_get (hash_map_put map path archs).0 other ≡ hash_map_get map other

-- The system's answers: `open`, `fstat` or `mmap` fails, or the file is mapped.
pub data Opened : Type 0 where
  not_opened no_stat not_mapped : Opened
  mapped : Mapping → Opened

-- The handle's results, the allocations that will succeed, and the files and mappings that are open.
pub record HandleWorld (Map : Type 0) : Type 0 where
  pub result_map : Map
  pub allocs : ℕ
  pub files : ℕ
  pub mappings : ℕ

-- What `*res` holds afterwards.
pub data Res : Type 0 where
  untouched null : Res
  known : List Arch → Res

pub data FileOutcome (Map : Type 0) : Type 0 where
  file_result : ℕ → Res → HandleWorld Map → FileOutcome Map
  crashed : FileOutcome Map

module _ {Map : Type 0} (hash_map : HashMap Map) (host : Host) (depth : ℕ) where
  -- Behind the put: where it has failed, the result is freed, also if the map has it by now.
  unfoldable pub keep_result : HandleWorld Map → List Arch → Map × Bool → FileOutcome Map
  keep_result w archs (map, true) =
      file_result macho_success (known archs) (record w { result_map = map })
  keep_result w archs (map, false) = file_result macho_emem null (record w { result_map = map })

  -- What follows `parse_macho`, which has used up some allocations; the file is unmapped and closed.
  unfoldable pub finish : Bytes → HandleWorld Map → Step (Unit {0}) → FileOutcome Map
  unfolding keep_result
  finish path w (Step.value u s) =
      keep_result (record w { allocs = s.allocs }) s.archs
        (hash_map.hash_map_put w.result_map path s.archs)
  finish path w (Step.stop code s) = file_result code null (record w { allocs = s.allocs })
  finish path w Step.fault = crashed
  finish path w Step.exhausted = crashed

  -- `create_macho_t`, by the allocations that are left: where it fails, the file stays open and
  -- mapped.
  unfoldable pub parse_mapped : Bytes → Mapping → HandleWorld Map → ℕ → FileOutcome Map
  unfolding finish
  parse_mapped path m w zero =
      file_result macho_emem null (record w { files = w.files + 1; mappings = w.mappings + 1 })
  parse_mapped path m w (suc k) = finish path w (
      parse_macho host m depth (record { start = 0; size = length m.file })
        (record { archs = []; allocs = k }))

  unfoldable pub parse_opened : Bytes → Opened → HandleWorld Map → FileOutcome Map
  unfolding parse_mapped
  parse_opened path not_opened w = file_result macho_efile untouched w
  parse_opened path no_stat w = file_result macho_efile untouched w
  parse_opened path not_mapped w = file_result macho_emmap untouched w
  parse_opened path (mapped m) w = parse_mapped path m w w.allocs

  -- The search in the hash map comes first.
  unfoldable pub looked_up : Bytes → Opened → HandleWorld Map → Option (List Arch) → FileOutcome Map
  unfolding parse_opened
  looked_up path opened w none = parse_opened path opened w
  looked_up path opened w (some archs) = file_result macho_success (known archs) w

  unfoldable pub macho_parse_file : Bytes → Opened → HandleWorld Map → FileOutcome Map
  unfolding looked_up
  macho_parse_file path opened w = looked_up path opened w (hash_map.hash_map_get w.result_map path)

  -- The calls of a handle one after the other; `none` where one crashes.
  abbrev pub world_after : FileOutcome Map → Option (HandleWorld Map)
  world_after (file_result code res w) = some w
  world_after crashed = none

  unfoldable pub parse_files : List (Bytes × Opened) → HandleWorld Map → Option (HandleWorld Map)
  unfolding macho_parse_file
  parse_files [] w = some w
  parse_files ((path, opened) ∷ calls) w =
      world_after (macho_parse_file path opened w) >>= parse_files calls

-- The place of the highest bit, counted from 1: the loop of `macho_strerror`. An int takes 31
-- rounds, and a negative one takes none.
unfoldable pub highest_bit : ℕ → ℕ → ℕ
highest_bit zero err = 0
highest_bit (suc rounds) err =
    let rest = highest_bit rounds (err / 2) in if ltb 0 err then rest + 1 else 0
