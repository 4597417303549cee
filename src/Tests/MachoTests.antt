-- ===== src/Tests/MachoTests.antt =====
-- The theorems at concrete inputs for src/machista1.0/libmachista.c.
use mac_ports_fork.CString.{Bytes}
use mac_ports_fork.Prelude.{
  ℕ, zero, suc, ◌≡◌, refl, length, List, [], ◌∷◌, Option, none, some, arith, ◌⊎◌, inl, inr, subst,
  ◌≢◌, Bool-cases, true, if◌then◌else◌,
}
use mac_ports_fork.Filemap.FilePath.{same_bytes, same_bytes_iff}
use mac_ports_fork.Macho.Mapping.{little, big, Mapping, Input, text, Name, fat32, read32}
use mathlib.Core.Option.{some-injective}
use mac_ports_fork.Macho.Result.{Arch, State, Step, macho_success, macho_erange}
use mac_ports_fork.Macho.Parse.{parse_macho, format}
use mac_ports_fork.Macho.HostOrder.{parse_macho-hosts}
use mac_ports_fork.Macho.Fits.{Finishes, Anything}
use mac_ports_fork.Macho.Slices.{parse_macho-Finishes, IsSliced, EntryOf, Nested}
use mac_ports_fork.Macho.Endless.{parse_macho-exhausted}
use mac_ports_fork.Macho.Image.{Library, plainly, reexported, Header, put_file}
use mac_ports_fork.Macho.Loads.{to_loadcmd}
use mac_ports_fork.Macho.Libraries.{allocs_for, parse_macho-put_file}
use mac_ports_fork.Macho.Files.{
  HashMap, Opened, parse_files, mapped, not_opened, HandleWorld, known, file_result,
  macho_parse_file,
}
use mac_ports_fork.Macho.Files.Cached.{macho_parse_file_again}

-- A little-endian header with one LC_LOAD_DYLIB of the library "z", and 8 bytes after it.
abbrev thin_file : Bytes
thin_file =
    0xce ∷ 0xfa ∷ 0xed ∷ 0xfe ∷ 7 ∷ 0 ∷ 0 ∷ 0 ∷ 3 ∷ 0 ∷ 0 ∷ 0 ∷ 2 ∷ 0 ∷ 0 ∷ 0 ∷ 1 ∷ 0 ∷ 0 ∷ 0 ∷ 28
    ∷ 0 ∷ 0 ∷ 0 ∷ 0 ∷ 0 ∷ 0 ∷ 0 ∷ 0xc ∷ 0 ∷ 0 ∷ 0 ∷ 28 ∷ 0 ∷ 0 ∷ 0 ∷ 24 ∷ 0 ∷ 0 ∷ 0 ∷ 2 ∷ 0 ∷ 0 ∷ 0
    ∷ 4 ∷ 3 ∷ 2 ∷ 0 ∷ 1 ∷ 0 ∷ 0 ∷ 0 ∷ b'z' ∷ 0 ∷ 0 ∷ 0 ∷ 0 ∷ 0 ∷ 0 ∷ 0 ∷ 0 ∷ 0 ∷ 0 ∷ 0 ∷ []

abbrev thin_map : Mapping
thin_map = record { file = thin_file; padding = 100 }

abbrev fresh : State
fresh = record { archs = []; allocs = 10 }

abbrev thin_archs : List Arch
thin_archs =
    (record {
      install_name = Name.null;
      rpath = Name.null;
      arch = 7;
      comp_version = 0;
      current_version = 0;
      loadcmds =
          (record {
            install_name = text (b'z' ∷ []);
            kind = 0xc;
            comp_version = 1;
            current_version = 0x2_0304;
          })
          ∷ [];
    })
    ∷ []

parsed :
    parse_macho little thin_map 100 (record { start = 0; size = 64 }) fresh
    ≡ Step.value tt (record { archs = thin_archs; allocs = 7 })
unfolding parse_macho
parsed = refl

-- Without the bytes after the last command the file is refused.
refused :
    parse_macho little
      (record { file = thin_file; padding = 100 })
      100
      (record { start = 0; size = 56 })
      fresh
    ≡ Step.stop macho_erange (record { archs = thin_archs; allocs = 7 })
unfolding parse_macho
refused = refl

parse_macho-hosts_example :
    parse_macho little thin_map 100 (record { start = 0; size = 64 }) fresh
    ≡ parse_macho big thin_map 100 (record { start = 0; size = 64 }) fresh
parse_macho-hosts_example =
    parse_macho-hosts thin_map 100 (record { start = 0; size = 64 }) fresh (omega arith)

-- A universal file with that file as its only entry, at offset 28.
abbrev fat_file : Bytes
fat_file =
    0xca ∷ 0xfe ∷ 0xba ∷ 0xbe ∷ 0 ∷ 0 ∷ 0 ∷ 1 ∷ 0 ∷ 0 ∷ 0 ∷ 7 ∷ 0 ∷ 0 ∷ 0 ∷ 3 ∷ 0 ∷ 0 ∷ 0 ∷ 28 ∷ 0
    ∷ 0 ∷ 0 ∷ 64 ∷ 0 ∷ 0 ∷ 0 ∷ 2 ∷ thin_file

abbrev fat_map : Mapping
fat_map = record { file = fat_file; padding = 100 }

abbrev whole_fat : Input
whole_fat = record { start = 0; size = 92 }

fat_parsed :
    parse_macho little fat_map 2 whole_fat fresh
    ≡ Step.value tt (record { archs = thin_archs; allocs = 7 })
unfolding parse_macho
fat_parsed = refl

EntryOf-whole :
    (offset size : ℕ) → EntryOf little fat_map whole_fat offset size → (offset ≡ 28) × (size ≡ 64)
unfolding fat32
EntryOf-whole offset size (EntryOf.entry_of magic nfat zero at announced count h o z) =
    (omega (arith, some-injective 28 offset o), omega (arith, some-injective 64 size z))
EntryOf-whole offset size (EntryOf.entry_of magic nfat (suc i) at announced count h o z) =
    absurd (omega (arith, some-injective 1 nfat count))

EntryOf-inner :
    (offset size : ℕ) → ¬ EntryOf little fat_map (record { start = 28; size = 64 }) offset size
unfolding read32 format
EntryOf-inner offset size (EntryOf.entry_of magic nfat i at announced count h o z) =
    ground (arith, some-injective 0xfeed_face magic at)

windows :
    {w : Input}
    → Nested little fat_map whole_fat w
    → (w ≡ whole_fat) ⊎ (w ≡ record { start = 28; size = 64 })
windows Nested.whole = inl refl
windows (Nested.nested {w} offset size n e) = elim (windows n) [
  | inl f ↦
      let (o, z) =
        EntryOf-whole offset size (subst (λ w. EntryOf little fat_map w offset size) f e) in
      inr (rw (f, o, z) refl)
  | inr f ↦
      absurd (EntryOf-inner offset size (subst (λ w. EntryOf little fat_map w offset size) f e))
]

fat_IsSliced : IsSliced little fat_map whole_fat
fat_IsSliced = record {
  sound = λ w offset size n e. elim (windows n) [
    | inl f ↦
        let (o, z) =
          EntryOf-whole offset size (subst (λ w. EntryOf little fat_map w offset size) f e) in
        (omega arith, omega arith)
    | inr f ↦
        absurd (EntryOf-inner offset size (subst (λ w. EntryOf little fat_map w offset size) f e))
  ];
}

parse_macho-Finishes_example : Finishes 92 Anything (parse_macho little fat_map 93 whole_fat fresh)
parse_macho-Finishes_example =
    parse_macho-Finishes little fat_map whole_fat 93 fresh (omega arith) (omega arith) fat_IsSliced
      (omega arith) (omega arith) (omega arith) tt

-- A universal file of 28 bytes whose only entry is the file itself.
abbrev self_file : Bytes
self_file =
    0xca ∷ 0xfe ∷ 0xba ∷ 0xbe ∷ 0 ∷ 0 ∷ 0 ∷ 1 ∷ 0 ∷ 0 ∷ 0 ∷ 7 ∷ 0 ∷ 0 ∷ 0 ∷ 3 ∷ 0 ∷ 0 ∷ 0 ∷ 0 ∷ 0
    ∷ 0 ∷ 0 ∷ 28 ∷ 0 ∷ 0 ∷ 0 ∷ 2 ∷ []

abbrev self_map : Mapping
self_map = record { file = self_file; padding = 100 }

parse_macho-exhausted_example :
    parse_macho little self_map 1_000 (record { start = 0; size = 28 }) fresh ≡ Step.exhausted
unfolding format fat32
parse_macho-exhausted_example =
    parse_macho-exhausted little self_map (record { start = 0; size = 28 }) 0xbeba_feca 0 refl refl
      refl refl refl (omega arith) 1_000 fresh

-- A header of a universal file in a window of 4 bytes is read through NULL.
null_header : parse_macho little self_map 10 (record { start = 0; size = 4 }) fresh ≡ Step.fault
unfolding parse_macho
null_header = refl

-- A hash map that is a list of pairs.
abbrev Pairs : Type 0
Pairs = List (Bytes × List Arch)

abbrev get_pair : Pairs → Bytes → Option (List Arch)
get_pair [] path = none
get_pair ((k, v) ∷ r) path = if same_bytes path k then some v else get_pair r path

same_bytes_refl : (s : Bytes) → same_bytes s s ≡ true
same_bytes_refl [] = refl
same_bytes_refl (c ∷ s) = ground (arith, same_bytes_refl s)

get_pair-put :
    (map : Pairs) (path : Bytes) (archs : List Arch)
    → true ≡ true
    → get_pair ((path, archs) ∷ map) path ≡ some archs
get_pair-put map path archs e = rw (same_bytes_refl path) refl

get_pair-put_other :
    (map : Pairs) (path other : Bytes) (archs : List Arch)
    → other ≢ path
    → get_pair ((path, archs) ∷ map) other ≡ get_pair map other
get_pair-put_other map path other archs h = elim (Bool-cases (same_bytes other path)) [
  | inl y ↦ absurd (h ((same_bytes_iff other path).0 y))
  | inr n ↦ rw n refl
]

abbrev pairs : HashMap Pairs
pairs = record {
  hash_map_get = get_pair;
  hash_map_put = λ map path archs. ((path, archs) ∷ map, true);
  get-put = get_pair-put;
  get-put_other = get_pair-put_other;
}

abbrev empty_world : HandleWorld Pairs
empty_world = record { result_map = []; allocs = 11; files = 0; mappings = 0 }

abbrev filled_world : HandleWorld Pairs
filled_world = record {
  result_map = (b'/' ∷ [], thin_archs) ∷ [];
  allocs = 7;
  files = 0;
  mappings = 0;
}

-- A parse of another path that keeps its result too, and one of a file that does not open.
abbrev later_calls : List (Bytes × Opened)
later_calls = (b'z' ∷ [], mapped fat_map) ∷ (b'y' ∷ [], not_opened) ∷ []

abbrev later_world : HandleWorld Pairs
later_world = record {
  result_map = (b'z' ∷ [], thin_archs) ∷ (b'/' ∷ [], thin_archs) ∷ [];
  allocs = 3;
  files = 0;
  mappings = 0;
}

later_parsed : parse_files pairs little 5 later_calls filled_world ≡ some later_world
unfolding parse_files parse_macho
later_parsed = refl

macho_parse_file_again_example :
    macho_parse_file pairs little 5 (b'/' ∷ []) not_opened later_world
    ≡ file_result macho_success (known thin_archs) later_world
unfolding macho_parse_file parse_macho
macho_parse_file_again_example =
    macho_parse_file_again pairs little 5 (b'/' ∷ []) (mapped fat_map) not_opened later_calls
      empty_world filled_world later_world macho_success thin_archs refl later_parsed

-- Two libraries, "z" and "ab", the second one reexported.
abbrev two_libraries : List Library
two_libraries =
    (record {
      loading = plainly;
      name = b'z' ∷ [];
      timestamp = 2;
      version_word = 0x2_0304;
      compatible_word = 1;
    })
    ∷ (record {
      loading = reexported;
      name = b'a' ∷ b'b' ∷ [];
      timestamp = 2;
      version_word = 5;
      compatible_word = 6;
    })
    ∷ []

abbrev some_header : Header
some_header = record { cputype = 7; cpusubtype = 3; filetype = 2; sizeofcmds = 53; flags = 0 }

abbrev eight : Bytes
eight = 0 ∷ 0 ∷ 0 ∷ 0 ∷ 0 ∷ 0 ∷ 0 ∷ 0 ∷ []

abbrev image_map : Mapping
image_map = record { file = put_file some_header two_libraries eight; padding = 0 }

parse_macho-put_file_example :
    parse_macho little image_map 1
      (record { start = 0; size = length image_map.file })
      (record { archs = []; allocs = 5 })
    ≡ Step.value tt (record {
      archs =
          (record {
            install_name = Name.null;
            rpath = Name.null;
            arch = 7;
            comp_version = 0;
            current_version = 0;
            loadcmds =
                (record {
                  install_name = text (b'a' ∷ b'b' ∷ []);
                  kind = 0x8000_001f;
                  comp_version = 6;
                  current_version = 5;
                })
                ∷ (record {
                  install_name = text (b'z' ∷ []);
                  kind = 0xc;
                  comp_version = 1;
                  current_version = 0x2_0304;
                })
                ∷ [];
          })
          ∷ [];
      allocs = 0;
    })
unfolding allocs_for to_loadcmd
parse_macho-put_file_example =
    parse_macho-put_file image_map some_header two_libraries eight 0 0 refl (omega arith)
      (omega arith) (omega arith) (omega arith)
