-- ===== src/Macho/Mapping.antt =====
-- The mapped file and what libmachista.c reads from it: `macho_read`, `macho_offset`,
-- `macho_swap32`, `macho_nswap32` and the copy of a name by `strlcpy`.
-- An address is its distance from the first byte of the mapping.
use mac_ports_fork.CString.{Bytes}
use mac_ports_fork.Prelude.{
  ℕ, zero, suc, ◌+◌, ◌-◌, ◌*◌, ◌/◌, ◌%◌, ◌^◌, [], ◌∷◌, ◌++◌, Option, none, some, Bool, ltb, ◌==◌,
  if◌then◌else◌, drop, take,
}
use mathlib.Core.Option

-- The byte order of the machine that runs the library.
pub data Host : Type 0 where
  little big : Host

-- `mmap` maps whole pages: the bytes after the end of the file, up to the end of its last page,
-- are zero, and `padding` is their number.
pub record Mapping : Type 0 where
  pub file : Bytes
  pub padding : ℕ

abbrev pub zeros : ℕ → Bytes
zeros zero = []
zeros (suc n) = 0 ∷ zeros n

abbrev pub memory : Mapping → Bytes
memory m = m.file ++ zeros m.padding

-- `macho_input`: a window of the mapping, its first address (`data`) and its length.
pub record Input : Type 0 where
  pub start : ℕ
  pub size : ℕ

-- The code never passes an address before the window's start. The window lies in the file, and the
-- addresses exceed it by less than 2 ^ 38, so that no sum here wraps in a size_t of 64 bits.
unfoldable pub macho_read : Input → ℕ → ℕ → Option ℕ
macho_read input address len =
    if ltb input.size (address - input.start + len) then none else some address

unfoldable pub macho_offset : Input → ℕ → ℕ → ℕ → Option ℕ
unfolding macho_read
macho_offset input address offset len = macho_read input (address + offset) len

-- `OSSwapInt32`.
unfoldable pub macho_swap32 : ℕ → ℕ
macho_swap32 x =
    x % 256 * 2 ^ 24 + x / 2 ^ 8 % 256 * 2 ^ 16 + x / 2 ^ 16 % 256 * 2 ^ 8 + x / 2 ^ 24 % 256

unfoldable pub macho_nswap32 : ℕ → ℕ
macho_nswap32 x = x

-- `OSSwapBigToHostInt32`.
unfoldable pub big_to_host : Host → ℕ → ℕ
unfolding macho_swap32
big_to_host little x = macho_swap32 x
big_to_host big x = x

-- The four bytes of a uint32_t, in the order of the machine.
unfoldable pub word : Host → Bytes → Option ℕ
word little (a ∷ b ∷ c ∷ d ∷ r) = some (a + b * 2 ^ 8 + c * 2 ^ 16 + d * 2 ^ 24)
word big (a ∷ b ∷ c ∷ d ∷ r) = some (d + c * 2 ^ 8 + b * 2 ^ 16 + a * 2 ^ 24)
word h (a ∷ b ∷ c ∷ []) = none
word h (a ∷ b ∷ []) = none
word h (a ∷ []) = none
word h [] = none

-- The read of a uint32_t through a pointer; `none` is a read outside the mapping, a crash.
unfoldable pub read32 : Host → Mapping → ℕ → Option ℕ
unfolding word
read32 h m address = word h (drop address (memory m))

-- A field of a header or of a command: `swap32 (p->field)`, by the `swap32` that the magic chose.
unfoldable pub field32 : Host → Bool → Mapping → ℕ → Option ℕ
unfolding read32 macho_swap32 macho_nswap32
field32 h swap m address =
    Option.map (if swap then macho_swap32 else macho_nswap32) (read32 h m address)

-- A field of a universal file's header, which is always big-endian.
unfoldable pub fat32 : Host → Mapping → ℕ → Option ℕ
unfolding read32 big_to_host
fat32 h m address = Option.map (big_to_host h) (read32 h m address)

-- A `char *` field of the result: NULL, a buffer of `malloc (0)`, to which nothing is written, or
-- the text that is stored.
pub data Name : Type 0 where
  null unset : Name
  text : Bytes → Name

-- The bytes before the first NUL; `none` where the memory has none.
unfoldable pub terminated : Bytes → Option Bytes
terminated [] = none
terminated (c ∷ r) = if c == 0 then some [] else Option.map (◌∷◌ c) (terminated r)

-- `strlcpy` to a buffer of `size` bytes. It reads its source up to the NUL in any case, to return
-- the length, and copies `size - 1` bytes at most; `none` is a read outside the mapping.
unfoldable pub copied : ℕ → Option Bytes → Option Name
copied size none = none
copied size (some t) = some (if size == 0 then unset else text (take (size - 1) t))

unfoldable pub strlcpy : Mapping → ℕ → ℕ → Option Name
unfolding terminated copied
strlcpy m src size = copied size (terminated (drop src (memory m)))
