-- ===== src/Filemap/Storage/Writes.antt =====
-- The runs of `write` calls in `Save` and `SaveNode` of src/pextlib1.0/filemap.c: what they append,
-- on every outcome of the calls.
use mac_ports_fork.CString.{Bytes}
use mac_ports_fork.Filemap.Disk.{
  Attempt, works, fails, Disk, first, later, spend, put_file, content_of, Outcome, finished, broke,
  and_then, returned, write,
}
use mac_ports_fork.Filemap.FilePath.{same_bytes, same_bytes_iff}
use mac_ports_fork.Filemap.Storage.{count_bytes, write_all, leaf_chunks, node_chunks, save_nodes}
use mac_ports_fork.Filemap.Storage.Image.{image}
use mac_ports_fork.Filemap.Tree.{Subnodes, nil, leaf, node, success, count}
use mac_ports_fork.Prelude.{
  ℕ, List, [], ◌∷◌, ◌++◌, Option, some, true, false, ◌≡◌, ◌≢◌, refl, sym, ap, ◌∙◌, subst, All,
  append_assoc, append-nil, take,
}

-- A call that fails sets `errno`.
abbrev pub SetsErrno : Attempt → Type 0
SetsErrno works = Unit
SetsErrno (fails code n) = code ≢ success

abbrev pub IsHonest : Disk → Type 0
IsHonest d = All SetsErrno d.attempts

-- All files but one are as before.
abbrev pub Others : Bytes → Disk → Disk → Type 0
Others path d d' = (p : Bytes) → same_bytes path p ≡ false → d'.files p ≡ d.files p

-- A run that appends `bytes` to the file at `path`, which held `old`, and touches no other file; if
-- it breaks, it does so with an error code.
abbrev pub Extends : Bytes → Bytes → Bytes → Disk → Outcome → Type 0
Extends path old bytes d (finished d') =
    (d'.files path ≡ some (old ++ bytes)) × Others path d d' × IsHonest d'
Extends path old bytes d (broke code d') = (code ≢ success) × Others path d d'

pub same_bytes_refl : (s : Bytes) → same_bytes s s ≡ true
same_bytes_refl s = (same_bytes_iff s s).1 refl

pub later-IsHonest : (l : List Attempt) → All SetsErrno l → All SetsErrno (later l)
later-IsHonest [] h = tt
later-IsHonest (a ∷ r) h = h.1

pub first-SetsErrno : (l : List Attempt) → All SetsErrno l → SetsErrno (first l)
first-SetsErrno [] h = tt
first-SetsErrno (a ∷ r) h = h.0

pub put_file-Others :
    (path : Bytes) (content : Option Bytes) (d : Disk)
    → Others path d (put_file path content (spend d))
unfolding put_file
put_file-Others path content d p e = rw e

module _ (path old : Bytes) where
  pub Extends-write :
      (bytes : Bytes) (d : Disk)
      → d.files path ≡ some old
      → IsHonest d
      → Extends path old bytes d (write path bytes d)
  unfolding write
  Extends-write bytes d e h = by_attempt (first d.attempts) (first-SetsErrno d.attempts h)
    where
      by_attempt :
          (a : Attempt)
          → SetsErrno a
          → Extends path old bytes d (elim a [
            | works ↦ finished (put_file path (some (content_of (d.files path) ++ bytes)) (spend d))
            | fails code n ↦
                broke code
                  (put_file path (some (content_of (d.files path) ++ take n bytes)) (spend d))
          ])
      by_attempt works s = (
        rw (put_file, same_bytes_refl path, e) refl,
        put_file-Others path _ d,
        later-IsHonest d.attempts h,
      )
      by_attempt (fails code n) s = (s, put_file-Others path _ d)

  pub Extends-and_then :
      (b₁ b₂ : Bytes) (d : Disk) (o : Outcome) (k : Disk → Outcome)
      → Extends path old b₁ d o
      → ((d' : Disk)
          → d'.files path ≡ some (old ++ b₁)
          → IsHonest d'
          → Extends path (old ++ b₁) b₂ d' (k d'))
      → Extends path old (b₁ ++ b₂) d (and_then o k)
  Extends-and_then b₁ b₂ d (finished d') k x y = join (k d') (y d' x.0 x.2)
    where
      join : (o : Outcome) → Extends path (old ++ b₁) b₂ d' o → Extends path old (b₁ ++ b₂) d o
      join (finished d'') z =
          (z.0 ∙ ap some (append_assoc old b₁ b₂), λ p e. z.1 p e ∙ x.1 p e, z.2)
      join (broke code d'') z = (z.0, λ p e. z.1 p e ∙ x.1 p e)
  Extends-and_then b₁ b₂ d (broke code d') k x y = x

  Extends-returned :
      (bytes : Bytes) (d : Disk) (o : Outcome)
      → Extends path old bytes d o
      → Extends path old bytes d (returned o)
  unfolding returned
  Extends-returned bytes d (finished d') x = x
  Extends-returned bytes d (broke success d') x = absurd (x.0 refl)
  Extends-returned bytes d (broke _ d') x = x

  Extends-none :
      (d : Disk) → d.files path ≡ some old → IsHonest d → Extends path old [] d (finished d)
  Extends-none d e h = (e ∙ ap some (sym (append-nil old)), λ p x. refl, h)

abbrev pub joined : List Bytes → Bytes
joined [] = []
joined (b ∷ r) = b ++ joined r

pub Extends-write_all :
    (path : Bytes) (chunks : List Bytes) (old : Bytes) (d : Disk)
    → d.files path ≡ some old
    → IsHonest d
    → Extends path old (joined chunks) d (write_all path chunks d)
unfolding write_all
Extends-write_all path [] old d e h = Extends-none path old d e h
Extends-write_all path (b ∷ r) old d e h =
    Extends-and_then path old b (joined r) d (write path b d) (write_all path r)
      (Extends-write path old b d e h) (λ d' e' h'. Extends-write_all path r (old ++ b) d' e' h')

leaf_joined :
    (key value rest : Bytes)
    → joined (leaf_chunks key value) ++ rest ≡ 1 ∷ (key ++ (0 ∷ (value ++ (0 ∷ rest))))
leaf_joined key value rest = simp (append_assoc, append-nil)

node_joined :
    (key subs rest : Bytes) (n : ℕ)
    → (joined (node_chunks key n) ++ subs) ++ rest
      ≡ 0 ∷ (key ++ (0 ∷ (count_bytes n ++ (subs ++ rest))))
node_joined key subs rest n = simp (append_assoc, append-nil)

pub Extends-save_nodes :
    (path : Bytes) (t : Subnodes) (old : Bytes) (d : Disk)
    → d.files path ≡ some old
    → IsHonest d
    → Extends path old (image t) d (save_nodes path t d)
unfolding save_nodes
Extends-save_nodes path nil old d e h = Extends-none path old d e h
Extends-save_nodes path (leaf k v b r) old d e h =
    subst (λ x. Extends path old x d (save_nodes path (leaf k v b r) d)) (leaf_joined k v (image r))
      (Extends-and_then path old (joined (leaf_chunks k v)) (image r) d _ (save_nodes path r)
        (Extends-returned path old (joined (leaf_chunks k v)) d _
          (Extends-write_all path (leaf_chunks k v) old d e h))
        (λ d' e' h'. Extends-save_nodes path r _ d' e' h'))
Extends-save_nodes path (node k c r) old d e h =
    subst (λ x. Extends path old x d (save_nodes path (node k c r) d))
      (node_joined k (image c) (image r) (count c))
      (Extends-and_then path old (joined (node_chunks k (count c)) ++ image c) (image r) d _
        (save_nodes path r)
        (Extends-returned path old (joined (node_chunks k (count c)) ++ image c) d _ (
          Extends-and_then path old (joined (node_chunks k (count c))) (image c) d _
            (save_nodes path c) (Extends-write_all path (node_chunks k (count c)) old d e h)
            (λ d' e' h'. Extends-save_nodes path c _ d' e' h')))
        (λ d' e' h'. Extends-save_nodes path r _ d' e' h'))
