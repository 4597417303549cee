-- ===== src/Filemap/Disk.antt =====
-- The file system as src/pextlib1.0/filemap.c meets it: the files, and the outcomes of the system
-- calls to come, which the environment chooses.
use mac_ports_fork.CString.{Bytes}
use mac_ports_fork.Filemap.FilePath.{same_bytes}
use mac_ports_fork.Filemap.Tree.{Code, success}
use mac_ports_fork.Prelude.{ℕ, List, [], ◌∷◌, ◌++◌, Option, none, some, if◌then◌else◌, take}

-- A call works, or fails: then it leaves this `errno`, which is `success` when a short write set
-- none, and a write has put this many bytes out.
pub data Attempt : Type 0 where
  works : Attempt
  fails : Code → ℕ → Attempt

pub record Disk : Type 0 where
  pub files : Bytes → Option Bytes
  pub attempts : List Attempt

-- With no attempts left every call works.
abbrev pub first : List Attempt → Attempt
first [] = works
first (a ∷ later) = a

abbrev pub later : List Attempt → List Attempt
later [] = []
later (a ∷ rest) = rest

unfoldable pub put_file : Bytes → Option Bytes → Disk → Disk
put_file path content d = record d { files = λ p. if same_bytes path p then content else d.files p }

abbrev pub spend : Disk → Disk
spend d = record d { attempts = later d.attempts }

abbrev pub content_of : Option Bytes → Bytes
content_of none = []
content_of (some bytes) = bytes

-- A run of calls that stop at the first failure, as a `do { … break; … } while (0)` does.
pub data Outcome : Type 0 where
  finished : Disk → Outcome
  broke : Code → Disk → Outcome

abbrev pub and_then : Outcome → (Disk → Outcome) → Outcome
and_then (finished d) k = k d
and_then (broke code d) k = broke code d

-- What the caller sees of a run: a break with `theErr` 0 looks like success.
unfoldable pub returned : Outcome → Outcome
returned (finished d) = finished d
returned (broke success d) = finished d
returned (broke code d) = broke code d

-- `open` with O_CREAT | O_TRUNC.
unfoldable pub open_new : Bytes → Disk → Outcome
unfolding put_file
open_new path d = elim (first d.attempts) [
  | works ↦ finished (put_file path (some []) (spend d))
  | fails code n ↦ broke code (spend d)
]

-- `write`, for a file that is open at its end.
unfoldable pub write : Bytes → Bytes → Disk → Outcome
unfolding put_file
write path bytes d = elim (first d.attempts) [
  | works ↦ finished (put_file path (some (content_of (d.files path) ++ bytes)) (spend d))
  | fails code n ↦
      broke code (put_file path (some (content_of (d.files path) ++ take n bytes)) (spend d))
]

-- `rename`.
unfoldable pub rename : Bytes → Bytes → Disk → Outcome
unfolding put_file
rename from to d = elim (first d.attempts) [
  | works ↦ finished (put_file from none (put_file to (d.files from) (spend d)))
  | fails code n ↦ broke code (spend d)
]
