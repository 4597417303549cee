-- ===== src/Filemap/Storage.antt =====
-- `Save`, `SaveNode`, `Load` and `LoadNode` of src/pextlib1.0/filemap.c.
pub mod Image
pub mod Writes
pub mod Atomic
pub mod Bounds
pub mod RoundTrip
use mac_ports_fork.CString.{Bytes}
use mac_ports_fork.Filemap.Disk.{
  Attempt, works, fails, Disk, first, spend, put_file, content_of, Outcome, finished, broke,
  and_then, returned, open_new, write, rename,
}
use mac_ports_fork.Filemap.FilePath.{same_bytes}
use mac_ports_fork.Filemap.Tree.{
  Subnodes, nil, leaf, node, Code, success, signature_mismatch, unknown_version, unknown_node_kind,
  name_too_long, eof_while_loading, name_max, count,
}
use mac_ports_fork.Prelude.{
  ℕ, zero, suc, ◌+◌, ◌-◌, ◌*◌, ◌/◌, ◌%◌, List, [], ◌∷◌, ◌++◌, Option, none, some, Bool, true, false,
  not, ◌&&◌, if◌then◌else◌, ltb, ◌==◌, length, take, drop,
}

-- <limits.h> on Darwin.
abbrev pub path_max : ℕ
path_max = 1024

-- "org.darwinports.filemap" with its terminator.
abbrev pub signature : Bytes
signature =
    b'o' ∷ b'r' ∷ b'g' ∷ b'.' ∷ b'd' ∷ b'a' ∷ b'r' ∷ b'w' ∷ b'i' ∷ b'n' ∷ b'p' ∷ b'o' ∷ b'r' ∷ b't'
    ∷ b's' ∷ b'.' ∷ b'f' ∷ b'i' ∷ b'l' ∷ b'e' ∷ b'm' ∷ b'a' ∷ b'p' ∷ 0 ∷ []

abbrev pub version : Bytes
version = 0 ∷ 1 ∷ 0 ∷ 0 ∷ []

-- A count as four bytes, the highest first.
unfoldable pub count_bytes : ℕ → Bytes
count_bytes n = (n / 16777216 % 256) ∷ (n / 65536 % 256) ∷ (n / 256 % 256) ∷ (n % 256) ∷ []

-- The writes of one run, in order.
unfoldable pub write_all : Bytes → List Bytes → Disk → Outcome
write_all path [] d = finished d
write_all path (bytes ∷ more) d = and_then (write path bytes d) (write_all path more)

-- What `SaveNode` writes before the subnodes: the kind, the key, then the value or the count.
abbrev pub leaf_chunks : Bytes → Bytes → List Bytes
leaf_chunks key value = (1 ∷ []) ∷ (key ++ 0 ∷ []) ∷ (value ++ 0 ∷ []) ∷ []

abbrev pub node_chunks : Bytes → ℕ → List Bytes
node_chunks key n = (0 ∷ []) ∷ (key ++ 0 ∷ []) ∷ count_bytes n ∷ []

-- `SaveNode` for each subnode of an array in turn; the loop stops at an error code.
unfoldable pub save_nodes : Bytes → Subnodes → Disk → Outcome
unfolding write_all returned
save_nodes path nil d = finished d
save_nodes path (leaf key value ended rest) d =
    and_then (returned (write_all path (leaf_chunks key value) d)) (save_nodes path rest)
save_nodes path (node key subs rest) d =
    and_then
      (returned (and_then (write_all path (node_chunks key (count subs)) d) (save_nodes path subs)))
      (save_nodes path rest)

-- `snprintf(…, sizeof(theTempFilePath) - 1, "%s.w", …)`.
unfoldable pub temp_path : Bytes → Bytes
temp_path path = take (path_max - 2) (path ++ b'.' ∷ b'w' ∷ [])

-- `Save`, for a root with this key.
unfoldable pub save : Bytes → Bytes → Subnodes → Disk → Outcome
unfolding open_new write_all save_nodes rename returned temp_path
save path key root d =
    let temp = temp_path path in
    returned (
      and_then (open_new temp d) λ d₁.
        and_then (write_all temp (signature ∷ version ∷ []) d₁)
          λ d₂. and_then (save_nodes temp (node key root nil) d₂) λ d₃. rename temp path d₃)

-- A load that has read something, has failed with a code, has read outside its buffer, or, in the
-- model alone, is out of fuel. After a failure the flag says whether the output pointer was set: it
-- then points to a node whose array is not wholly filled in.
pub data Read {ℓ} (A : Type ℓ) : Type ℓ where
  got : A → Read A
  failed : Code → Bool → Read A
  overrun out_of_fuel : Read A

infixl 5 ◌>>=◌ ◌>>◌
abbrev pub ◌>>=◌ {ℓ κ} : {A : Type ℓ} {B : Type κ} → Read A → (A → Read B) → Read B
got a >>= f = f a
failed code set >>= f = failed code set
overrun >>= f = overrun
out_of_fuel >>= f = out_of_fuel

abbrev pub ◌>>◌ {ℓ} : {B : Type ℓ} → Read (Unit {0}) → Read B → Read B
m >> k = m >>= λ _. k

abbrev pub refuse_if : Bool → Code → Read (Unit {0})
refuse_if true code = failed code false
refuse_if false code = got tt

-- The rest of the buffer, and `theBytesLeft`, which does not count the terminators that were read.
abbrev pub Cursor : Type 0
Cursor = Bytes × ℕ

-- A terminated string at the front of the buffer, by `strlen`.
unfoldable pub c_string : Bytes → Read (Bytes × Bytes)
c_string [] = overrun
c_string (c ∷ cs) =
    let more = c_string cs >>= λ (s, rest). got (c ∷ s, rest) in
    if c == 0 then got ([], cs) else more

-- A key or a value: its length is checked against NAME_MAX and against the bytes left.
unfoldable pub load_string : Cursor → Read (Bytes × Cursor)
unfolding c_string
load_string (buf, left) = do
  (s, rest) ← c_string buf
  refuse_if (ltb name_max (length s)) name_too_long
  refuse_if (ltb left (length s)) eof_while_loading
  got (s, (rest, left - length s))

unfoldable pub load_byte : Cursor → Read (ℕ × Cursor)
load_byte ([], left) = overrun
load_byte (b ∷ buf, left) = got (b, (buf, left - 1))

-- The kind byte.
unfoldable pub load_kind : Cursor → Read (ℕ × Cursor)
unfolding load_byte
load_kind (buf, left) = do
  refuse_if (left == 0) eof_while_loading
  (kind, cur) ← load_byte (buf, left)
  refuse_if (not (kind == 1) && not (kind == 0)) unknown_node_kind
  got (kind, cur)

-- The number of subnodes.
unfoldable pub load_count : Cursor → Read (ℕ × Cursor)
unfolding load_byte
load_count (buf, left) = do
  refuse_if (ltb left 4) eof_while_loading
  (a, c₁) ← load_byte (buf, left)
  (b, c₂) ← load_byte c₁
  (c, c₃) ← load_byte c₂
  (d, c₄) ← load_byte c₃
  got (a * 16777216 + b * 65536 + c * 256 + d, c₄)

-- A failure inside the loop over the subnodes comes when the node is already the output.
abbrev pub inside {ℓ} : {A : Type ℓ} → Read A → Read A
inside (failed code set) = failed code true
inside r = r

-- `LoadNode`, `n` times in a row; the call for a node loads its subnodes. Each call reads a byte,
-- so fuel above the length of the buffer is enough.
unfoldable pub load_nodes : ℕ → ℕ → Cursor → Read (Subnodes × Cursor)
unfolding load_kind load_string load_count
load_nodes zero n cur = out_of_fuel
load_nodes (suc f) zero cur = got (nil, cur)
load_nodes (suc f) (suc n) cur = do
  (kind, c₁) ← load_kind cur
  (key, c₂) ← load_string c₁
  let as_leaf : Read (Subnodes × Cursor) = do
    (value, c₃) ← load_string c₂
    (rest, c₄) ← load_nodes f n c₃
    got (leaf key value false rest, c₄)
  let as_node : Read (Subnodes × Cursor) = do
    (many, c₃) ← load_count c₂
    (subs, c₄) ← inside (load_nodes f many c₃)
    (rest, c₅) ← load_nodes f n c₄
    got (node key subs rest, c₅)
  if kind == 1 then as_leaf else as_node

-- `SFilemapObject.fRoot`: a tree with its root's key, a null pointer, or a pointer to what is no
-- tree (a leaf that the file has for its root, or a node that is not wholly filled in).
pub data Root : Type 0 where
  tree : Bytes → Subnodes → Root
  null broken : Root

abbrev pub as_root : Subnodes → Root
as_root (node key subs nil) = tree key subs
as_root _ = broken

-- What `Load` makes of the run of `LoadNode`; `none` is a memory error.
abbrev pub root_read : Disk → Read (Subnodes × Cursor) → Option (Code × Root × Disk)
root_read d (got (t, cur)) = some (success, as_root t, d)
root_read d (failed code set) = some (code, (if set then broken else null), d)
root_read d overrun = none
root_read d out_of_fuel = none

-- `Load` on the bytes of the file, behind its system calls.
unfoldable pub load_bytes : Bytes → Disk → Option (Code × Root × Disk)
unfolding load_nodes
load_bytes bytes d =
    let body = drop 28 bytes in
    let run = root_read d (load_nodes (suc (length body)) 1 (body, length body)) in
    if not (same_bytes (take 24 bytes) signature)
    then some (signature_mismatch, null, d)
    else if not (same_bytes (take 4 (drop 24 bytes)) version)
    then some (unknown_version, null, d)
    else run

-- `fstat` and `read`, and the two checks of the size.
unfoldable pub load_opened : Bytes → Disk → Option (Code × Root × Disk)
load_opened bytes d = elim (first d.attempts) [
  | fails code n ↦ some (code, null, spend d)
  | works ↦
      if length bytes == 0
      then some (success, tree [] nil, spend d)
      else if ltb (length bytes) 28
      then some (unknown_version, null, spend d)
      else elim (first (spend d).attempts) [
        | fails code n ↦ some (code, null, spend (spend d))
        | works ↦ load_bytes bytes (spend (spend d))
      ]
]

-- `Load`. The file is opened with O_CREAT, so a missing file is made, empty.
unfoldable pub load : Bytes → Disk → Option (Code × Root × Disk)
load path d = elim (first d.attempts) [
  | fails code n ↦ some (code, null, spend d)
  | works ↦
      let bytes = content_of (d.files path) in
      load_opened bytes (put_file path (some bytes) (spend d))
]
