-- ===== src/Filemap/Storage/RoundTrip.antt =====
-- `Load` of src/pextlib1.0/filemap.c after `Save`.
use mac_ports_fork.CString.{Bytes}
use mac_ports_fork.Filemap.Access.{get, get_in, leaf_value, node_value}
use mac_ports_fork.Filemap.Disk.{Disk, put_file, later, spend, finished}
use mac_ports_fork.Filemap.FilePath.{Steps, stop, file, dir, steps, same_bytes}
use mac_ports_fork.Filemap.Storage.{
  signature, version, load_bytes, load_opened, load, save, temp_path, tree, root_read, load_nodes,
  got,
}
use mac_ports_fork.Filemap.Storage.Atomic.{file_image, save_atomic, SavesAtomically}
use mac_ports_fork.Filemap.Storage.Writes.{IsHonest}
use mac_ports_fork.Filemap.Storage.Image.{image, reloaded, IsString, IsStorable, load_nodes-image}
use mac_ports_fork.Filemap.Tree.{
  Subnodes, nil, leaf, node, Slot, absent, is_leaf, is_node, success, locate, count,
}
use mac_ports_fork.Prelude.{
  ℕ, suc, ◌<◌, ◌≤◌, [], ◌++◌, Option, some, false, ◌≡◌, refl, ap, ◌∙◌, arith, length, subst,
  append-nil,
}

abbrev reloaded_slot : Slot → Slot
reloaded_slot absent = absent
reloaded_slot (is_leaf w b) = is_leaf w false
reloaded_slot (is_node c) = is_node (reloaded c)

locate-reloaded : (p : Bytes) (t : Subnodes) → locate p (reloaded t) ≡ reloaded_slot (locate p t)
unfolding locate
locate-reloaded p nil = refl
locate-reloaded p (leaf k w b r) = ground (arith, locate-reloaded p r)
locate-reloaded p (node k c r) = ground (arith, locate-reloaded p r)

-- A tree that is loaded again reads the same at every path.
get_in-reloaded : (q : Steps) (t : Subnodes) → get_in q (reloaded t) ≡ get_in q t
unfolding get_in
get_in-reloaded stop t = refl
get_in-reloaded (file p) t = rw (locate-reloaded p t) (at_slot (locate p t))
  where
    at_slot : (s : Slot) → leaf_value (reloaded_slot s) ≡ leaf_value s
    at_slot absent = refl
    at_slot (is_leaf w b) = refl
    at_slot (is_node c) = refl
get_in-reloaded (dir p r) t = rw (locate-reloaded p t) (at_slot (locate p t) (get_in-reloaded r))
  where
    at_slot :
        (s : Slot)
        → ((c : Subnodes) → get_in r (reloaded c) ≡ get_in r c)
        → node_value (get_in r) (reloaded_slot s) ≡ node_value (get_in r) s
    at_slot absent k = refl
    at_slot (is_leaf w b) k = refl
    at_slot (is_node c) k = k c

load_nodes_whole :
    (t : Subnodes)
    → IsStorable t
    → (left : ℕ) × (load_nodes (suc (length (image t))) (count t) (image t, length (image t))
        ≡ got (reloaded t, ([], left)))
load_nodes_whole t h =
    let (left, ran, bound) =
      load_nodes-image t h (suc (length (image t))) (length (image t)) [] (omega arith)
        (omega arith) in
    (
      left,
      subst
          (λ b.
            load_nodes (suc (length (image t))) (count t) (b, length (image t))
            ≡ got (reloaded t, ([], left)))
          (append-nil (image t)) ran,
    )

-- Behind a good header, `Load` is the run of `LoadNode`.
load_bytes_header :
    (body : Bytes) (d : Disk)
    → load_bytes (signature ++ (version ++ body)) d
      ≡ root_read d (load_nodes (suc (length body)) 1 (body, length body))
unfolding load_bytes
load_bytes_header body d = refl

count_root : (key : Bytes) (root : Subnodes) → count (node key root nil) ≡ 1
unfolding count
count_root key root = refl

load_bytes-image :
    (key : Bytes) (root : Subnodes) (d : Disk)
    → IsString key
    → count root < 4294967296
    → IsStorable root
    → load_bytes (file_image key root) d ≡ some (success, tree key (reloaded root), d)
load_bytes-image key root d hk hc hs =
    let (left, ran) = load_nodes_whole (node key root nil) (hk, hc, hs, tt) in
    load_bytes_header (image (node key root nil)) d
    ∙ ap (root_read d) (rw (count_root key root) at ran)

load_opened_works :
    (bytes : Bytes) (d : Disk)
    → d.attempts ≡ []
    → 28 ≤ length bytes
    → load_opened bytes d ≡ load_bytes bytes (spend (spend d))
unfolding load_opened
load_opened_works bytes d a l = ground (arith, a)

load_works :
    (path bytes : Bytes) (d : Disk)
    → d.attempts ≡ []
    → d.files path ≡ some bytes
    → load path d ≡ load_opened bytes (put_file path (some bytes) (spend d))
unfolding load
load_works path bytes d a e = ground (arith, a, e)

-- The disk after a `Load` of a file that holds these bytes, if no call fails.
abbrev after_load : Bytes → Bytes → Disk → Disk
after_load path bytes d = spend (spend (put_file path (some bytes) (spend d)))

length-file_image : (key : Bytes) (root : Subnodes) → 28 ≤ length (file_image key root)
length-file_image key root = omega arith

attempts_spent :
    (path : Bytes) (content : Option Bytes) (d : Disk)
    → d.attempts ≡ []
    → (put_file path content (spend d)).attempts ≡ []
unfolding put_file
attempts_spent path content d a = ap later a

-- With calls that work, `Load` reads the image of a tree from its file.
load-image :
    (path key : Bytes) (root : Subnodes) (d : Disk)
    → d.files path ≡ some (file_image key root)
    → d.attempts ≡ []
    → IsString key
    → count root < 4294967296
    → IsStorable root
    → load path d
      ≡ some (success, tree key (reloaded root), after_load path (file_image key root) d)
load-image path key root d e a hk hc hs =
    let bytes = file_image key root in
    load_works path bytes d a e
    ∙ load_opened_works bytes (put_file path (some bytes) (spend d))
        (attempts_spent path (some bytes) d a) (length-file_image key root)
    ∙ load_bytes-image key root (after_load path bytes d) hk hc hs

-- If every call of `Save` that fails sets `errno`, as a short write need not, and the name of the
-- temporary file is not cut down to that of the database: what `Save` has written with success,
-- `Load` reads back where none of its own calls fails. The code is 0, the root has its key, and
-- every path reads as before. The tree has strings without a zero byte that fit their arrays, and
-- fewer than 2 ^ 32 subnodes in each node.
pub load-save :
    (path key : Bytes) (root : Subnodes) (d d' : Disk)
    → IsHonest d
    → same_bytes (temp_path path) path ≡ false
    → save path key root d ≡ finished d'
    → d'.attempts ≡ []
    → IsString key
    → count root < 4294967296
    → IsStorable root
    → (t : Subnodes) × (d'' : Disk) × (load path d' ≡ some (success, tree key t, d''))
      × ((other : Bytes) → get t other ≡ get root other)
unfolding get
load-save path key root d d' h ne e a hk hc hs =
    let saved = save_atomic path key root d h ne in
    let saved' : SavesAtomically path key root d (finished d') =
      subst (SavesAtomically path key root d) e saved in
    (
      reloaded root,
      after_load path (file_image key root) d',
      load-image path key root d' saved'.0 a hk hc hs,
      λ other. get_in-reloaded (steps other) root,
    )
