-- ===== src/Macho/Files/Cached.antt =====
-- The results that the handle of src/machista1.0/libmachista.c keeps.
use mac_ports_fork.CString.{Bytes}
use mac_ports_fork.Filemap.FilePath.{same_bytes, same_bytes_iff}
use mac_ports_fork.Macho.Files.{
  HashMap, Opened, not_opened, no_stat, not_mapped, mapped, HandleWorld, known, FileOutcome,
  file_result, crashed, keep_result, finish, parse_mapped, parse_opened, looked_up,
  macho_parse_file, world_after, parse_files,
}
use mac_ports_fork.Macho.Mapping.{Host, Mapping}
use mac_ports_fork.Macho.Parse.{parse_macho}
use mac_ports_fork.Macho.Result.{Step, Arch, macho_success}
use mac_ports_fork.Prelude.{
  same_result, ◌>>=◌, ℕ, zero, suc, ◌≡◌, ◌≢◌, refl, sym, ap, subst, ◌∙◌, Option, none, some, List,
  [], ◌∷◌, Bool, true, false, Bool-cases, inl, inr,
}

module _ {Map : Type 0} (hash_map : HashMap Map) (host : Host) (depth : ℕ) where
  -- A call that gives a result leaves it under its path.
  Kept : Bytes → FileOutcome Map → Type 0
  Kept path (file_result code (known archs) w) =
      hash_map.hash_map_get w.result_map path ≡ some archs
  Kept path _ = Unit

  keep_result-Kept :
      (path : Bytes) (w : HandleWorld Map) (archs : List Arch) (r : Map × Bool)
      → (r.1 ≡ true → hash_map.hash_map_get r.0 path ≡ some archs)
      → Kept path (keep_result hash_map host depth w archs r)
  unfolding Kept keep_result
  keep_result-Kept path w archs (map, true) h = h refl
  keep_result-Kept path w archs (map, false) h = tt

  finish-Kept :
      (path : Bytes) (w : HandleWorld Map) (r : Step (Unit {0}))
      → Kept path (finish hash_map host depth path w r)
  unfolding Kept finish
  finish-Kept path w (Step.value u s) =
      keep_result-Kept path (record w { allocs = s.allocs }) s.archs
        (hash_map.hash_map_put w.result_map path s.archs)
        (hash_map.get-put w.result_map path s.archs)
  finish-Kept path w (Step.stop code s) = tt
  finish-Kept path w Step.fault = tt
  finish-Kept path w Step.exhausted = tt

  parse_mapped-Kept :
      (path : Bytes) (m : Mapping) (w : HandleWorld Map) (allocs : ℕ)
      → Kept path (parse_mapped hash_map host depth path m w allocs)
  unfolding Kept parse_mapped
  parse_mapped-Kept path m w zero = tt
  parse_mapped-Kept path m w (suc k) = finish-Kept path w (parse_macho host m depth _ _)

  looked_up-Kept :
      (path : Bytes) (opened : Opened) (w : HandleWorld Map) (o : Option (List Arch))
      → hash_map.hash_map_get w.result_map path ≡ o
      → Kept path (looked_up hash_map host depth path opened w o)
  unfolding Kept looked_up parse_opened
  looked_up-Kept path not_opened w none e = tt
  looked_up-Kept path no_stat w none e = tt
  looked_up-Kept path not_mapped w none e = tt
  looked_up-Kept path (mapped m) w none e = parse_mapped-Kept path m w w.allocs
  looked_up-Kept path opened w (some archs) e = e

  module _ (path : Bytes) (archs : List Arch) where
    -- The handle has the result of the path.
    abbrev Has : HandleWorld Map → Type 0
    Has w = hash_map.hash_map_get w.result_map path ≡ some archs

    Still : FileOutcome Map → Type 0
    Still (file_result code res w) = Has w
    Still crashed = Unit

    keep_result-Still :
        (w : HandleWorld Map) (other : List Arch) (r : Map × Bool)
        → hash_map.hash_map_get r.0 path ≡ some archs
        → Still (keep_result hash_map host depth w other r)
    unfolding Still keep_result
    keep_result-Still w other (map, true) h = h
    keep_result-Still w other (map, false) h = h

    module _ (key : Bytes) (differs : path ≢ key) where
      finish-Still :
          (w : HandleWorld Map) (r : Step (Unit {0}))
          → Has w
          → Still (finish hash_map host depth key w r)
      unfolding Still finish
      finish-Still w (Step.value u s) h =
          keep_result-Still (record w { allocs = s.allocs }) s.archs
            (hash_map.hash_map_put w.result_map key s.archs)
            (hash_map.get-put_other w.result_map key path s.archs differs ∙ h)
      finish-Still w (Step.stop code s) h = h
      finish-Still w Step.fault h = tt
      finish-Still w Step.exhausted h = tt

      parse_mapped-Still :
          (m : Mapping) (w : HandleWorld Map) (allocs : ℕ)
          → Has w
          → Still (parse_mapped hash_map host depth key m w allocs)
      unfolding Still parse_mapped
      parse_mapped-Still m w zero h = h
      parse_mapped-Still m w (suc k) h = finish-Still w (parse_macho host m depth _ _) h

      looked_up-Still :
          (opened : Opened) (w : HandleWorld Map) (o : Option (List Arch))
          → Has w
          → Still (looked_up hash_map host depth key opened w o)
      unfolding Still looked_up parse_opened
      looked_up-Still not_opened w none h = h
      looked_up-Still no_stat w none h = h
      looked_up-Still not_mapped w none h = h
      looked_up-Still (mapped m) w none h = parse_mapped-Still m w w.allocs h
      looked_up-Still opened w (some found) h = h

    found_again :
        (opened : Opened) (w : HandleWorld Map)
        → Has w
        → macho_parse_file hash_map host depth path opened w
          ≡ file_result macho_success (known archs) w
    unfolding macho_parse_file
    found_again opened w h = ap (looked_up hash_map host depth path opened w) h

    -- For any path, this one included.
    macho_parse_file-Still :
        (key : Bytes) (opened : Opened) (w : HandleWorld Map)
        → Has w
        → Still (macho_parse_file hash_map host depth key opened w)
    unfolding Still macho_parse_file
    macho_parse_file-Still key opened w h = elim (Bool-cases (same_bytes path key)) [
      | inl y ↦
          subst (λ k. Still (macho_parse_file hash_map host depth k opened w))
            ((same_bytes_iff path key).0 y) (subst Still (sym (found_again opened w h)) (same h))
      | inr n ↦
          looked_up-Still key (λ e. differ n e) opened w (hash_map.hash_map_get w.result_map key) h
    ]
      where
        same : Has w → Still (file_result macho_success (known archs) w)
        same h = h

        differ : same_bytes path key ≡ false → path ≢ key
        differ n e = cc (n, (same_bytes_iff path key).1 e)

    parse_files-Has :
        (calls : List (Bytes × Opened)) (w w' : HandleWorld Map)
        → Has w
        → parse_files hash_map host depth calls w ≡ some w'
        → Has w'
    unfolding Still parse_files
    parse_files-Has [] w w' h e = same_result Has e h
    parse_files-Has ((key, opened) ∷ calls) w w' h e =
        each (macho_parse_file hash_map host depth key opened w)
          (macho_parse_file-Still key opened w h) (λ w₁. parse_files-Has calls w₁ w') e
      where
        each :
            (o : FileOutcome Map)
            → Still o
            → ((w₁ : HandleWorld Map)
                → Has w₁
                → parse_files hash_map host depth calls w₁ ≡ some w'
                → Has w')
            → (world_after hash_map host depth o >>= parse_files hash_map host depth calls)
              ≡ some w'
            → Has w'
        each (file_result code res w₁) k next e = next w₁ k e
        each crashed k next e = absurd cc

  -- Once a call for a path has given a result, with any code, then after any calls that do not
  -- crash, for any paths and whatever the system answered for their files, the path gives that
  -- result again, with MACHO_SUCCESS and nothing changed, whatever the system answers for its file
  -- by then.
  pub macho_parse_file_again :
      (path : Bytes) (opened opened' : Opened) (calls : List (Bytes × Opened))
      (w w₁ w₂ : HandleWorld Map) (code : ℕ) (archs : List Arch)
      → macho_parse_file hash_map host depth path opened w ≡ file_result code (known archs) w₁
      → parse_files hash_map host depth calls w₁ ≡ some w₂
      → macho_parse_file hash_map host depth path opened' w₂
        ≡ file_result macho_success (known archs) w₂
  unfolding Kept macho_parse_file
  macho_parse_file_again path opened opened' calls w w₁ w₂ code archs e later =
      let first = looked_up-Kept path opened w (hash_map.hash_map_get w.result_map path) refl in
      let kept = subst (Kept path) e first in
      found_again path archs opened' w₂ (parse_files-Has path archs calls w₁ w₂ kept later)
