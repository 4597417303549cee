-- ===== src/Filemap/Commands/Frames.antt =====
-- Rules for the frames that the subcommands of src/pextlib1.0/filemap.c share: what they do to the
-- variables.
use mac_ports_fork.CString.{Bytes}
use mac_ports_fork.Filemap.FilePath.{same_bytes}
use mac_ports_fork.Filemap.Object.{
  FilemapObject, Value, filemap, other_type, World, Run, put_variable, result_from_code,
  with_object, with_found, object_of, with_tree, drop_variable, assign, free_internal_rep,
}
use mac_ports_fork.Filemap.Storage.{Root, tree, null, broken}
use mac_ports_fork.Filemap.Tree.{Subnodes, Code, success}
use mac_ports_fork.Prelude.{
  Option, none, some, Bool, true, false, ◌≡◌, refl, subst, Bool-cases, inl, inr, if◌then◌else◌,
}

abbrev pub Variables : Type 0
Variables = Bytes → Option Value

abbrev pub IsGood : FilemapObject → Type 0
IsGood o = o.is_read_only ≡ true → o.is_dirty ≡ false

-- No variable holds a map that is both read-only and dirty.
abbrev pub ReadOnlyIsClean : Variables → Type 0
ReadOnlyIsClean vars =
    (name : Bytes) (o : FilemapObject)
    → vars name ≡ some (filemap o)
    → o.is_read_only ≡ true
    → o.is_dirty ≡ false

abbrev pub EndsClean : Run → Type 0
EndsClean none = Unit
EndsClean (some (status, w)) = ReadOnlyIsClean w.variables

filemap-injective : {o o' : FilemapObject} → filemap o ≡ filemap o' → o ≡ o'
filemap-injective e = cc

pub put_variable-clean :
    (name : Bytes) (o : FilemapObject) (w : World)
    → IsGood o
    → ReadOnlyIsClean w.variables
    → ReadOnlyIsClean (put_variable name (some (filemap o)) w).variables
unfolding put_variable
put_variable-clean name o w g h n o' e r = elim (Bool-cases (same_bytes name n)) [
  | inl y ↦ let same : o ≡ o' = cc (rw y at e) in subst IsGood same g r
  | inr ne ↦ h n o' (rw ne at e) r
]

drop_clean :
    (name : Bytes) (w : World)
    → ReadOnlyIsClean w.variables
    → ReadOnlyIsClean (put_variable name none w).variables
unfolding put_variable
drop_clean name w h n o' e r = elim (Bool-cases (same_bytes name n)) [
  | inl y ↦ cc (rw y at e)
  | inr ne ↦ h n o' (rw ne at e) r
]

abbrev pub CleanWorld : Option World → Type 0
CleanWorld none = Unit
CleanWorld (some w) = ReadOnlyIsClean w.variables

pub drop_variable-clean :
    (name : Bytes) (w : World) → ReadOnlyIsClean w.variables → CleanWorld (drop_variable name w)
unfolding drop_variable
drop_variable-clean name w h = at_value (w.variables name)
  where
    at_object :
        (left : Option (Option FilemapObject))
        → CleanWorld (elim left [ none ↦ none | some l ↦ some (put_variable name none w) ])
    at_object none = tt
    at_object (some l) = drop_clean name w h

    at_value :
        (v : Option Value)
        → CleanWorld (elim v [
          | none ↦ some w
          | some value ↦ elim value [
            | other_type ↦ some (put_variable name none w)
            | filemap o ↦ elim (free_internal_rep o) [
              | none ↦ none
              | some left ↦ some (put_variable name none w)
            ]
          ]
        ])
    at_value none = h
    at_value (some other_type) = drop_clean name w h
    at_value (some (filemap o)) = at_object (free_internal_rep o)

pub assign_clean :
    (name : Bytes) (o : FilemapObject) (w : World)
    → IsGood o
    → ReadOnlyIsClean w.variables
    → CleanWorld (assign name o w)
unfolding assign
assign_clean name o w g h = at_world (drop_variable name w) (drop_variable-clean name w h)
  where
    at_world :
        (m : Option World)
        → CleanWorld m
        → CleanWorld
            (elim m [ none ↦ none | some w' ↦ some (put_variable name (some (filemap o)) w') ])
    at_world none c = tt
    at_world (some w') c = put_variable-clean name o w' g c

pub result_clean :
    (code : Code) (w : World)
    → ReadOnlyIsClean w.variables
    → ReadOnlyIsClean (result_from_code code w).1.variables
unfolding result_from_code
result_clean success w h = h
result_clean _ w h = h

-- The frame of most subcommands.
pub with_object-clean :
    (b : Bool) (name : Bytes) (w : World) (body : FilemapObject → Run)
    → ReadOnlyIsClean w.variables
    → ((o : FilemapObject) → w.variables name ≡ some (filemap o) → EndsClean (body o))
    → EndsClean (with_object b name w body)
unfolding with_object
with_object-clean false name w body h k = h
with_object-clean true name w body h k = at_value (w.variables name) refl
  where
    at_value :
        (v : Option Value) → w.variables name ≡ v → EndsClean (with_found (object_of v w) body)
    at_value none e = h
    at_value (some other_type) e = h
    at_value (some (filemap o)) e = k o e

pub with_tree-clean :
    (root : Root) (body : Bytes → Subnodes → Run)
    → ((key : Bytes) (t : Subnodes) → EndsClean (body key t))
    → EndsClean (with_tree root body)
with_tree-clean (tree key t) body k = k key t
with_tree-clean null body k = tt
with_tree-clean broken body k = tt

abbrev pub CodedClean : Option (Code × World) → Type 0
CodedClean none = Unit
CodedClean (some (code, w)) = ReadOnlyIsClean w.variables

-- A property of both branches.
pub either {ℓ} :
    {A : Type ℓ} (P : A → Type 0) (b : Bool) {x y : A} → P x → P y → P (if b then x else y)
either P true p q = p
either P false p q = q

-- As `either`, where the branches may use the test.
pub either_by {ℓ} :
    {A : Type ℓ} (P : A → Type 0) (b : Bool) {x y : A}
    → (b ≡ true → P x)
    → (b ≡ false → P y)
    → P (if b then x else y)
either_by P true p q = p refl
either_by P false p q = q refl
