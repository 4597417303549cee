-- ===== src/Macho/Parse.antt =====
-- `parse_macho` of src/machista1.0/libmachista.c. The magic numbers, the types of the load commands
-- and the layouts of the structs are those of the system's <mach-o/loader.h> and <mach-o/fat.h>.
use mac_ports_fork.Prelude.{
  ℕ, zero, suc, ◌+◌, ◌-◌, Bool, true, false, ◌||◌, Option, ltb, ◌==◌, if◌then◌else◌,
}
use mac_ports_fork.Macho.Mapping.{
  Host, Mapping, Input, macho_read, macho_offset, read32, field32, fat32, Name, null, strlcpy,
}
use mac_ports_fork.Macho.Result.{
  Step, M, ◌>>=◌, ◌>>◌, pure, check, dereference, update_arch, update_cmd, allocate,
  macho_archlist_append, macho_loadcmdlist_append, macho_erange, macho_emagic,
}

abbrev pub mh_magic : ℕ
mh_magic = 0xfeed_face

abbrev pub mh_cigam : ℕ
mh_cigam = 0xcefa_edfe

abbrev pub mh_magic_64 : ℕ
mh_magic_64 = 0xfeed_facf

abbrev pub mh_cigam_64 : ℕ
mh_cigam_64 = 0xcffa_edfe

abbrev pub fat_magic : ℕ
fat_magic = 0xcafe_babe

abbrev pub fat_cigam : ℕ
fat_cigam = 0xbeba_feca

abbrev pub lc_load_dylib : ℕ
lc_load_dylib = 0xc

abbrev pub lc_id_dylib : ℕ
lc_id_dylib = 0xd

abbrev pub lc_load_weak_dylib : ℕ
lc_load_weak_dylib = 0x8000_0018

abbrev pub lc_rpath : ℕ
lc_rpath = 0x8000_001c

abbrev pub lc_reexport_dylib : ℕ
lc_reexport_dylib = 0x8000_001f

-- The sizes of `rpath_command`, `dylib_command`, `load_command`, `fat_header` and `fat_arch`.
abbrev pub rpath_command : ℕ
rpath_command = 12

abbrev pub dylib_command : ℕ
dylib_command = 24

abbrev pub load_command : ℕ
load_command = 8

abbrev pub fat_header : ℕ
fat_header = 8

abbrev pub fat_arch : ℕ
fat_arch = 20

-- What the switch on the magic finds: a file of one architecture, whether its fields are swapped
-- and the size of its header, or a universal file.
pub data Format : Type 0 where
  thin : Bool → ℕ → Format
  universal unknown : Format

unfoldable pub format : ℕ → Format
format magic =
    if magic == mh_cigam
    then thin true 28
    else if magic == mh_magic
    then thin false 28
    else if magic == mh_cigam_64
    then thin true 32
    else if magic == mh_magic_64
    then thin false 32
    else if magic == fat_cigam || magic == fat_magic
    then universal
    else unknown

module _ (fetch : ℕ → Option ℕ) (m : Mapping) (input : Input) where
  -- The part that the commands with a text share: the size is checked, the text's bytes are.
  unfoldable pub check_text : ℕ → ℕ → ℕ → M ℕ
  unfolding check macho_offset
  check_text cmd cmdsize header =
      if ltb cmdsize header
      then (λ s. Step.stop macho_erange s)
      else check (macho_offset input cmd header (cmdsize - header))

  -- `p = malloc(n); if (p == NULL) return MACHO_EMEM; strlcpy(p, src, n);` where `put` stores to p.
  unfoldable pub copy_text : (Name → M (Unit {0})) → ℕ → ℕ → M (Unit {0})
  unfolding dereference allocate strlcpy
  copy_text put src n = do put null; allocate; name ← dereference (strlcpy m src n); put name

  unfoldable pub load_rpath : ℕ → ℕ → M (Unit {0})
  unfolding check_text copy_text update_arch
  load_rpath cmd cmdsize = do
    pathptr ← check_text cmd cmdsize rpath_command
    copy_text (λ n. update_arch (λ a. record a { rpath = n })) pathptr (cmdsize - rpath_command)

  unfoldable pub id_dylib : ℕ → ℕ → M (Unit {0})
  unfolding check_text copy_text update_arch dereference
  id_dylib cmd cmdsize = do
    nameptr ← check_text cmd cmdsize dylib_command
    copy_text (λ n. update_arch (λ a. record a { install_name = n })) nameptr
        (cmdsize - dylib_command)
    current ← dereference (fetch (cmd + 16))
    update_arch (λ a. record a { current_version = current })
    compatible ← dereference (fetch (cmd + 20))
    update_arch (λ a. record a { comp_version = compatible })

  unfoldable pub load_dylib : ℕ → ℕ → ℕ → M (Unit {0})
  unfolding check_text copy_text update_cmd dereference macho_loadcmdlist_append
  load_dylib cmd_type cmd cmdsize = do
    nameptr ← check_text cmd cmdsize dylib_command
    macho_loadcmdlist_append
    copy_text (λ n. update_cmd (λ c. record c { install_name = n })) nameptr
        (cmdsize - dylib_command)
    current ← dereference (fetch (cmd + 16))
    update_cmd (λ c. record c { current_version = current })
    compatible ← dereference (fetch (cmd + 20))
    update_cmd (λ c. record c { comp_version = compatible })
    update_cmd (λ c. record c { kind = cmd_type })

  -- The switch on the type of the command.
  unfoldable pub handle : ℕ → ℕ → ℕ → M (Unit {0})
  unfolding load_rpath id_dylib load_dylib
  handle cmd_type cmd cmdsize =
      if cmd_type == lc_rpath
      then load_rpath cmd cmdsize
      else if cmd_type == lc_id_dylib
      then id_dylib cmd cmdsize
      else if cmd_type == lc_load_weak_dylib
          || cmd_type == lc_reexport_dylib
          || cmd_type == lc_load_dylib
      then load_dylib cmd_type cmd cmdsize
      else pure tt

  -- One round of the loop over the load commands: the address of the next command.
  unfoldable pub parse_command : ℕ → M ℕ
  unfolding check dereference macho_read macho_offset handle
  parse_command cmd = do
    cmdsize ← dereference (fetch (cmd + 4))
    cmd ← check (macho_read input cmd cmdsize)
    cmd_type ← dereference (fetch cmd)
    handle cmd_type cmd cmdsize
    check (macho_offset input cmd cmdsize load_command)

  -- The loop, by the rounds that are left.
  unfoldable pub load_commands : ℕ → ℕ → M (Unit {0})
  unfolding parse_command
  load_commands zero cmd = pure tt
  load_commands (suc rounds) cmd = do next ← parse_command cmd; load_commands rounds next

-- A file of one architecture, or one architecture of a universal file. The source stores the CPU
-- twice; 4 and 16 are the offsets of `cputype` and `ncmds`.
unfoldable pub parse_thin : (ℕ → Option ℕ) → Mapping → Input → ℕ → M (Unit {0})
unfolding check dereference macho_read macho_offset update_arch macho_archlist_append load_commands
parse_thin fetch m input header_size = do
  header ← check (macho_read input input.start header_size)
  macho_archlist_append
  cputype ← dereference (fetch (header + 4))
  update_arch (λ a. record a { arch = cputype })
  cmd ← check (macho_offset input header header_size load_command)
  ncmds ← dereference (fetch (header + 16))
  load_commands fetch m input ncmds cmd

-- `fetch` reads a field of the universal file's header.
module _ (fetch : ℕ → Option ℕ) (parse : Input → M (Unit {0})) (input : Input) where
  -- One entry of a universal file: 8 and 12 are the offsets of `offset` and `size`.
  unfoldable pub slice : ℕ → M (Unit {0})
  unfolding check dereference macho_read macho_offset
  slice entry = do
    arch ← check (macho_read input entry fat_arch)
    size ← dereference (fetch (arch + 12))
    offset ← dereference (fetch (arch + 8))
    start ← check (macho_offset input input.start offset size)
    parse (record { start = start; size = size })

  -- The loop over the entries: the rounds left, and the address of the next entry.
  unfoldable pub slices : ℕ → ℕ → M (Unit {0})
  unfolding slice
  slices zero entry = pure tt
  slices (suc rounds) entry = do slice entry; slices rounds (entry + fat_arch)

  -- The header of a universal file. Its `macho_read` is not tested: NULL is read through.
  unfoldable pub parse_universal : M (Unit {0})
  unfolding check dereference macho_read macho_offset slices
  parse_universal = do
    header ← dereference (macho_read input input.start fat_header)
    nfat ← dereference (fetch (header + 4))
    archs ← check (macho_offset input header fat_header fat_arch)
    slices nfat archs

unfoldable pub parse_format :
    Host → Mapping → (Input → M (Unit {0})) → Input → Format → M (Unit {0})
unfolding parse_thin parse_universal field32 fat32
parse_format host m parse input (thin swap size) = parse_thin (field32 host swap m) m input size
parse_format host m parse input universal = parse_universal (fat32 host m) parse input
parse_format host m parse input unknown = λ s. Step.stop macho_emagic s

-- `depth` is the number of nested calls that the stack holds.
unfoldable pub parse_macho : Host → Mapping → ℕ → Input → M (Unit {0})
unfolding check dereference macho_read read32 format parse_format
parse_macho host m zero input = λ s. Step.exhausted
parse_macho host m (suc depth) input = do
  start ← check (macho_read input input.start 4)
  magic ← dereference (read32 host m start)
  parse_format host m (parse_macho host m depth) input (format magic)
