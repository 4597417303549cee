-- ===== src/Macho/Libraries.antt =====
-- `parse_macho` of src/machista1.0/libmachista.c on the files that Image specifies.
use mac_ports_fork.CString.{Bytes}
use mac_ports_fork.Prelude.{
  ℕ, suc, ◌+◌, ◌^◌, ◌<◌, ◌≤◌, ◌≡◌, refl, sym, ap, ◌∙◌, List, [], ◌∷◌, ◌++◌, map, append_assoc,
  append-nil, some, false, drop, length, length-append, All, arith,
}
use mathlib.Core.List.{reverse, reverse-append}
use mac_ports_fork.Macho.Mapping.{
  Mapping, Input, null, little, memory, zeros, read32, field32, macho_read, macho_offset, word,
}
use mac_ports_fork.Macho.Result.{
  Arch, Step, continue, allocate, update_arch, macho_archlist_append, create_macho_arch_t,
}
use mac_ports_fork.Macho.Parse.{
  parse_thin, parse_format, parse_macho, load_commands, load_command, mh_magic,
}
use mac_ports_fork.Macho.Reads.{macho_read-some}
use mac_ports_fork.Macho.Endless.{check-bind, dereference-bind}
use mac_ports_fork.Macho.Image.{
  put32, Library, IsLibrary, put_numbers, put_library, put_libraries, Header, put_file,
  field32-put32, drop-drop,
}
use mac_ports_fork.Macho.Loads.{to_loadcmd, with_library, commanded}

-- The libraries that are found: the last one is in front.
unfoldable pub with_libraries : List Library → Arch → Arch
with_libraries ls a = record a { loadcmds = reverse (map to_loadcmd ls) ++ a.loadcmds }

-- Two allocations for each.
unfoldable pub allocs_for : List Library → ℕ → ℕ
allocs_for [] k = k
allocs_for (l ∷ ls) k = suc (suc (allocs_for ls k))

-- The bytes of the commands.
unfoldable pub total : List Library → ℕ
total [] = 0
total (l ∷ ls) = length l.name + 25 + total ls

with_libraries_step :
    (l : Library) (ls : List Library) (a : Arch)
    → with_libraries ls (with_library l a) ≡ with_libraries (l ∷ ls) a
unfolding with_libraries with_library
with_libraries_step l ls a =
    ap (λ c. record a { loadcmds = c })
      (sym (
        ap (λ c. c ++ a.loadcmds) (reverse-append (to_loadcmd l ∷ []) (map to_loadcmd ls))
        ∙ append_assoc (reverse (map to_loadcmd ls)) (to_loadcmd l ∷ []) a.loadcmds))

drop_name : (t r : Bytes) → drop (suc (length t)) (t ++ 0 ∷ r) ≡ r
drop_name [] r = refl
drop_name (c ∷ t) r = drop_name t r

drop-put_library : (l : Library) (r : Bytes) → drop (length l.name + 25) (put_library l r) ≡ r
unfolding put_library
drop-put_library l r =
    let e : length l.name + 25 ≡ 24 + suc (length l.name) = omega arith in
    ap (λ n. drop n (put_library l r)) e
    ∙ drop-drop 24 (suc (length l.name)) (put_library l r)
    ∙ drop_name l.name r

put_library-append : (l : Library) (r z : Bytes) → put_library l r ++ z ≡ put_library l (r ++ z)
unfolding put_library
put_library-append l r z = ap (put_numbers l) (append_assoc l.name (0 ∷ r) z)

put_libraries-append :
    (ls : List Library) (r z : Bytes) → put_libraries ls r ++ z ≡ put_libraries ls (r ++ z)
unfolding put_libraries
put_libraries-append [] r z = refl
put_libraries-append (l ∷ ls) r z =
    put_library-append l (put_libraries ls r) z ∙ ap (put_library l) (put_libraries-append ls r z)

length-put_library :
    (l : Library) (r : Bytes) → length (put_library l r) ≡ length l.name + 25 + length r
unfolding put_library
length-put_library l r = omega (arith, length-append l.name (0 ∷ r))

length-put_libraries :
    (ls : List Library) (r : Bytes) → length (put_libraries ls r) ≡ total ls + length r
unfolding put_libraries total
length-put_libraries [] r = omega arith
length-put_libraries (l ∷ ls) r =
    omega (arith, length-put_library l (put_libraries ls r), length-put_libraries ls r)

-- The loop finds every library, where 8 bytes follow the last command.
load_commands_lem :
    (m : Mapping) (input : Input) (rest : Bytes) (ls : List Library) (cmd : ℕ) (a : Arch)
    (r : List Arch) (k : ℕ)
    → All IsLibrary ls
    → drop cmd (memory m) ≡ put_libraries ls rest
    → input.start ≤ cmd
    → cmd + total ls + 8 ≤ input.start + input.size
    → load_commands
        (field32 little false m)
        m
        input
        (length ls)
        cmd
        (record { archs = a ∷ r; allocs = allocs_for ls k })
      ≡ Step.value tt (record { archs = with_libraries ls a ∷ r; allocs = k })
unfolding load_commands put_libraries total allocs_for
load_commands_lem m input rest [] cmd a r k ok at after room = unfold with_libraries in refl
load_commands_lem m input rest (l ∷ ls) cmd a r k ok at after room =
    ap (λ t. continue t λ next. load_commands (field32 little false m) m input (length ls) next)
      (commanded m input l ok.0 cmd (put_libraries ls rest) at after (omega arith) a r
        (allocs_for ls k))
    ∙ load_commands_lem m input rest ls (cmd + (length l.name + 25)) (with_library l a) r k ok.1
        (drop-drop cmd (length l.name + 25) (memory m)
          ∙ ap (drop (length l.name + 25)) at
          ∙ drop-put_library l (put_libraries ls rest))
        (omega arith) (omega arith)
    ∙ ap (λ b. Step.value tt (record { archs = b ∷ r; allocs = k })) (with_libraries_step l ls a)

module _ (m : Mapping) (h : Header) (ls : List Library) (rest : Bytes)
    (image : m.file ≡ put_file h ls rest) (libraries : All IsLibrary ls) (behind : 8 ≤ length rest)
    (cputype_fits : h.cputype < 2 ^ 32) (count_fits : length ls < 2 ^ 32) where
  abbrev whole_file : Input
  whole_file = record { start = 0; size = length m.file }

  whole_memory : memory m ≡ put_file h ls (rest ++ zeros m.padding)
  unfolding put_file
  whole_memory =
      ap (λ f. f ++ zeros m.padding) image
      ∙ ap
          (λ r. put32 mh_magic (
            put32 h.cputype (
              put32 h.cpusubtype
                (put32 h.filetype (put32 (length ls) (put32 h.sizeofcmds (put32 h.flags r)))))))
          (put_libraries-append ls rest (zeros m.padding))

  file_size : length m.file ≡ 28 + total ls + length rest
  unfolding put_file
  file_size = ap length image ∙ omega (arith, length-put_libraries ls rest)

  magic_word : read32 little m 0 ≡ some mh_magic
  unfolding read32 put_file word
  magic_word = ap (word little) whole_memory

  cputype_at : field32 little false m 4 ≡ some h.cputype
  unfolding put_file
  cputype_at = field32-put32 m 0 4 h.cputype _ _ whole_memory refl cputype_fits

  count_at : field32 little false m 16 ≡ some (length ls)
  unfolding put_file
  count_at = field32-put32 m 0 16 (length ls) _ _ whole_memory refl count_fits

  commands_at : drop 28 (memory m) ≡ put_libraries ls (rest ++ zeros m.padding)
  unfolding put_file
  commands_at = ap (drop 28) whole_memory

  -- The architecture of the header, before its libraries.
  abbrev header_arch : Arch
  header_arch = record create_macho_arch_t { arch = h.cputype }

  thin_parsed :
      (k : ℕ)
      → parse_thin
          (field32 little false m)
          m
          whole_file
          28
          (record { archs = []; allocs = suc (allocs_for ls k) })
        ≡ Step.value tt (record { archs = with_libraries ls header_arch ∷ []; allocs = k })
  unfolding parse_thin macho_offset macho_archlist_append allocate update_arch
  thin_parsed k =
      check-bind (macho_read whole_file 0 28) 0 _ _
        (macho_read-some whole_file 0 28 (omega (arith, file_size)))
      ∙ dereference-bind (field32 little false m 4) h.cputype _ _ cputype_at
      ∙ check-bind (macho_read whole_file 28 load_command) 28 _ _
          (macho_read-some whole_file 28 load_command (omega (arith, file_size)))
      ∙ dereference-bind (field32 little false m 16) (length ls) _ _ count_at
      ∙ load_commands_lem m whole_file (rest ++ zeros m.padding) ls 28 header_arch [] k libraries
          commands_at (omega arith) (omega (arith, file_size))

-- The parser finds the libraries: on a little-endian machine, on the image of a header and of any
-- list of libraries whose names have no NUL and whose numbers fit their words, with 8 bytes or more
-- behind the last command, exactly the allocations that are needed or more, and room for one call on
-- the stack, the result is one architecture with the CPU of the header and the libraries' names,
-- types and versions, in the order from the last to the first.
pub parse_macho-put_file :
    (m : Mapping) (h : Header) (ls : List Library) (rest : Bytes) (depth k : ℕ)
    → m.file ≡ put_file h ls rest
    → All IsLibrary ls
    → 8 ≤ length rest
    → h.cputype < 2 ^ 32
    → length ls < 2 ^ 32
    → parse_macho little m
        (suc depth)
        (record { start = 0; size = length m.file })
        (record { archs = []; allocs = suc (allocs_for ls k) })
      ≡ Step.value tt (record {
        archs =
            (record {
              install_name = null;
              rpath = null;
              arch = h.cputype;
              comp_version = 0;
              current_version = 0;
              loadcmds = reverse (map to_loadcmd ls);
            })
            ∷ [];
        allocs = k;
      })
unfolding parse_macho parse_format with_libraries create_macho_arch_t
parse_macho-put_file m h ls rest depth k image libraries behind cputype_fits count_fits =
    check-bind (macho_read (record { start = 0; size = length m.file }) 0 4) 0 _ _ (
      macho_read-some (record { start = 0; size = length m.file }) 0 4
        (omega (arith, file_size m h ls rest image libraries behind cputype_fits count_fits)))
    ∙ dereference-bind (read32 little m 0) mh_magic _ _
        (magic_word m h ls rest image libraries behind cputype_fits count_fits)
    ∙ thin_parsed m h ls rest image libraries behind cputype_fits count_fits k
    ∙ ap
        (λ c. Step.value tt (record {
          archs =
              (record (header_arch m h ls rest image libraries behind cputype_fits count_fits) {
                loadcmds = c;
              })
              ∷ [];
          allocs = k;
        }))
        (append-nil (reverse (map to_loadcmd ls)))
