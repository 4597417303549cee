-- ===== src/Filemap/Storage/Atomic.antt =====
-- What `Save` of src/pextlib1.0/filemap.c does to the files, on every outcome of its system calls.
use mac_ports_fork.CString.{Bytes}
use mac_ports_fork.Filemap.Disk.{
  Attempt, works, fails, Disk, first, spend, put_file, Outcome, finished, broke, and_then, returned,
  open_new, rename,
}
use mac_ports_fork.Filemap.FilePath.{same_bytes}
use mac_ports_fork.Filemap.Storage.{signature, version, write_all, save_nodes, temp_path, save}
use mac_ports_fork.Filemap.Storage.Writes.{
  SetsErrno, IsHonest, Others, Extends, same_bytes_refl, later-IsHonest, first-SetsErrno,
  put_file-Others, Extends-and_then, joined, Extends-write_all, Extends-save_nodes,
}
use mac_ports_fork.Filemap.Storage.Image.{image}
use mac_ports_fork.Filemap.Tree.{Subnodes, nil, node, success}
use mac_ports_fork.Prelude.{[], ◌∷◌, ◌++◌, none, some, false, ◌≡◌, ◌≢◌, refl, sym, ◌∙◌, subst}

-- The whole file for a tree.
abbrev pub file_image : Bytes → Subnodes → Bytes
file_image key root = joined (signature ∷ version ∷ []) ++ image (node key root nil)

-- The database holds the new image after a success, and what it held before after an error; no other
-- file but the temporary one is touched.
abbrev pub SavesAtomically : Bytes → Bytes → Subnodes → Disk → Outcome → Type 0
SavesAtomically path key root d (finished d') =
    (d'.files path ≡ some (file_image key root))
    × ((p : Bytes)
        → same_bytes (temp_path path) p ≡ false
        → same_bytes path p ≡ false
        → d'.files p ≡ d.files p)
SavesAtomically path key root d (broke code d') =
    (code ≢ success)
    × ((p : Bytes) → same_bytes (temp_path path) p ≡ false → d'.files p ≡ d.files p)

module _ (path key : Bytes) (root : Subnodes) where
  SavesAtomically-returned :
      (d : Disk) (o : Outcome)
      → SavesAtomically path key root d o
      → SavesAtomically path key root d (returned o)
  unfolding returned
  SavesAtomically-returned d (finished d') x = x
  SavesAtomically-returned d (broke success d') x = absurd (x.0 refl)
  SavesAtomically-returned d (broke _ d') x = x

  -- The rename, when the temporary file is complete.
  SavesAtomically-rename :
      (d d' : Disk)
      → same_bytes (temp_path path) path ≡ false
      → d'.files (temp_path path) ≡ some (file_image key root)
      → Others (temp_path path) d d'
      → IsHonest d'
      → SavesAtomically path key root d (rename (temp_path path) path d')
  unfolding rename put_file
  SavesAtomically-rename d d' ne e same h =
      by_attempt (first d'.attempts) (first-SetsErrno d'.attempts h)
    where
      by_attempt :
          (a : Attempt)
          → SetsErrno a
          → SavesAtomically path key root d (elim a [
            | works ↦ finished (
                put_file
                  (temp_path path)
                  none
                  (put_file path (d'.files (temp_path path)) (spend d')))
            | fails code n ↦ broke code (spend d')
          ])
      by_attempt works s = (rw (ne, same_bytes_refl path) e, λ p x y. rw (x, y) (same p x))
      by_attempt (fails code n) s = (s, λ p x. same p x)

  SavesAtomically-written :
      (d : Disk) (o : Outcome)
      → same_bytes (temp_path path) path ≡ false
      → Extends (temp_path path) [] (file_image key root) d o
      → SavesAtomically path key root d (and_then o (rename (temp_path path) path))
  SavesAtomically-written d (finished d') ne x = SavesAtomically-rename d d' ne x.0 x.1 x.2
  SavesAtomically-written d (broke code d') ne x = x

  Extends-body :
      (d : Disk)
      → d.files (temp_path path) ≡ some []
      → IsHonest d
      → Extends (temp_path path) [] (file_image key root) d (
          and_then
            (write_all (temp_path path) (signature ∷ version ∷ []) d)
            (save_nodes (temp_path path) (node key root nil)))
  Extends-body d e h =
      Extends-and_then (temp_path path) [] (joined (signature ∷ version ∷ []))
        (image (node key root nil)) d _ (save_nodes (temp_path path) (node key root nil))
        (Extends-write_all (temp_path path) (signature ∷ version ∷ []) [] d e h)
        (λ d' e' h'. Extends-save_nodes (temp_path path) (node key root nil) _ d' e' h')

and_then_assoc :
    (o : Outcome) (k l : Disk → Outcome)
    → and_then o (λ d. and_then (k d) l) ≡ and_then (and_then o k) l
and_then_assoc (finished d) k l = refl
and_then_assoc (broke code d) k l = refl

-- Behind the `open` the disk differs in the temporary file alone.
SavesAtomically-weaken :
    (path key : Bytes) (root : Subnodes) (d d₁ : Disk) (o : Outcome)
    → Others (temp_path path) d d₁
    → SavesAtomically path key root d₁ o
    → SavesAtomically path key root d o
SavesAtomically-weaken path key root d d₁ (finished d') same x =
    (x.0, λ p y z. x.1 p y z ∙ same p y)
SavesAtomically-weaken path key root d d₁ (broke code d') same x = (x.0, λ p y. x.1 p y ∙ same p y)

SavesAtomically-after_open :
    (path key : Bytes) (root : Subnodes) (d : Disk) (o : Outcome)
    → same_bytes (temp_path path) path ≡ false
    → Extends (temp_path path) [] [] d o
    → SavesAtomically path key root d (
        and_then o λ d₁. and_then (write_all (temp_path path) (signature ∷ version ∷ []) d₁) λ d₂.
          and_then
            (save_nodes (temp_path path) (node key root nil) d₂)
            λ d₃. rename (temp_path path) path d₃)
SavesAtomically-after_open path key root d (finished d₁) ne x =
    SavesAtomically-weaken path key root d d₁ _ x.1 (
      subst (SavesAtomically path key root d₁)
        (sym (
          and_then_assoc (write_all (temp_path path) (signature ∷ version ∷ []) d₁)
            (save_nodes (temp_path path) (node key root nil)) (rename (temp_path path) path)))
        (SavesAtomically-written path key root d₁ _ ne (Extends-body path key root d₁ x.0 x.2)))
SavesAtomically-after_open path key root d (broke code d₁) ne x = x

open_new-Extends : (path : Bytes) (d : Disk) → IsHonest d → Extends path [] [] d (open_new path d)
unfolding open_new
open_new-Extends path d h = by_attempt (first d.attempts) (first-SetsErrno d.attempts h)
  where
    by_attempt :
        (a : Attempt)
        → SetsErrno a
        → Extends path [] [] d (elim a [
          | works ↦ finished (put_file path (some []) (spend d))
          | fails code n ↦ broke code (spend d)
        ])
    by_attempt works s = (
      rw (put_file, same_bytes_refl path) refl,
      put_file-Others path _ d,
      later-IsHonest d.attempts h,
    )
    by_attempt (fails code n) s = (s, λ p e. refl)

-- If every call that fails sets `errno`, and the name of the temporary file is not cut down to that
-- of the database, `Save` is atomic: when it returns 0 the database holds exactly the signature, the
-- version and the image of the tree; when it returns an error, whichever call failed, the database
-- holds what it held before. No file but these two is changed.
pub save_atomic :
    (path key : Bytes) (root : Subnodes) (d : Disk)
    → IsHonest d
    → same_bytes (temp_path path) path ≡ false
    → SavesAtomically path key root d (save path key root d)
unfolding save
save_atomic path key root d h ne = SavesAtomically-returned path key root d _ (
    SavesAtomically-after_open path key root d (open_new (temp_path path) d) ne
      (open_new-Extends (temp_path path) d h))
