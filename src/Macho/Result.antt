-- ===== src/Macho/Result.antt =====
-- What libmachista.c builds and how it fails: the structs of libmachista.h, the codes that
-- `parse_macho` returns, the allocations, and the two functions that append to the lists.
use mac_ports_fork.Prelude.{ℕ, zero, suc, List, [], ◌∷◌, Option, none, some}
use mac_ports_fork.Macho.Mapping.{Name, null}

abbrev pub macho_success : ℕ
macho_success = 0x00

abbrev pub macho_efile : ℕ
macho_efile = 0x01

abbrev pub macho_emmap : ℕ
macho_emmap = 0x02

abbrev pub macho_emem : ℕ
macho_emem = 0x04

abbrev pub macho_erange : ℕ
macho_erange = 0x08

abbrev pub macho_emagic : ℕ
macho_emagic = 0x10

pub record LoadCmd : Type 0 where
  pub install_name : Name
  pub kind : ℕ
  pub comp_version : ℕ
  pub current_version : ℕ

pub record Arch : Type 0 where
  pub install_name : Name
  pub rpath : Name
  pub arch : ℕ
  pub comp_version : ℕ
  pub current_version : ℕ
  pub loadcmds : List LoadCmd

-- The `macho_t` under construction, newest architecture first, and the number of allocations that
-- succeed before one fails: a failing allocation ends the parse, so no other is asked for after it.
pub record State : Type 0 where
  pub archs : List Arch
  pub allocs : ℕ

-- A step returns a value, or ends the parse with a code, or crashes (a NULL pointer or an address
-- outside the mapping is read), or has used the stack up.
pub data Step (A : Type 0) : Type 0 where
  value : A → State → Step A
  stop : ℕ → State → Step A
  fault exhausted : Step A

abbrev pub M : Type 0 → Type 0
M A = State → Step A

abbrev pub continue : {A B : Type 0} → Step A → (A → M B) → Step B
continue (Step.value a s) f = f a s
continue (Step.stop c s) f = Step.stop c s
continue Step.fault f = Step.fault
continue Step.exhausted f = Step.exhausted

infixl 5 ◌>>=◌ ◌>>◌
abbrev pub ◌>>=◌ : {A B : Type 0} → M A → (A → M B) → M B
◌>>=◌ m f s = continue (m s) f

abbrev pub ◌>>◌ : {A B : Type 0} → M A → M B → M B
◌>>◌ m n = m >>= λ _. n

abbrev pub pure : {A : Type 0} → A → M A
pure a s = Step.value a s

-- `if (p == NULL) return MACHO_ERANGE;`
unfoldable pub check : Option ℕ → M ℕ
check none s = Step.stop macho_erange s
check (some p) s = Step.value p s

-- A read of memory.
unfoldable pub dereference : {A : Type 0} → Option A → M A
dereference none s = Step.fault
dereference (some x) s = Step.value x s

-- The element that the pointers `mat` and `mlt` of the code point to is the head of its list.
unfoldable pub on_head : {A : Type 0} → (A → A) → List A → List A
on_head f [] = []
on_head f (a ∷ r) = f a ∷ r

unfoldable pub update_arch : (Arch → Arch) → M (Unit {0})
unfolding on_head
update_arch f s = Step.value tt (record s { archs = on_head f s.archs })

unfoldable pub update_cmd : (LoadCmd → LoadCmd) → M (Unit {0})
unfolding update_arch
update_cmd f = update_arch (λ a. record a { loadcmds = on_head f a.loadcmds })

-- `malloc`, with `return MACHO_EMEM` where it gives NULL.
unfoldable pub allocate : M (Unit {0})
allocate s = elim s.allocs [
  | zero ↦ Step.stop macho_emem s
  | suc k ↦ Step.value tt (record s { allocs = k })
]

-- `create_macho_arch_t` and `create_macho_loadcmd_t`: a zeroed struct.
unfoldable pub create_macho_arch_t : Arch
create_macho_arch_t = record {
  install_name = null;
  rpath = null;
  arch = 0;
  comp_version = 0;
  current_version = 0;
  loadcmds = [];
}

unfoldable pub create_macho_loadcmd_t : LoadCmd
create_macho_loadcmd_t = record {
  install_name = null;
  kind = 0;
  comp_version = 0;
  current_version = 0;
}

unfoldable pub macho_archlist_append : M (Unit {0})
unfolding allocate create_macho_arch_t
macho_archlist_append = do
  allocate
  λ s. Step.value tt (record s { archs = create_macho_arch_t ∷ s.archs })

unfoldable pub macho_loadcmdlist_append : M (Unit {0})
unfolding allocate create_macho_loadcmd_t update_arch
macho_loadcmdlist_append = do
  allocate
  update_arch (λ a. record a { loadcmds = create_macho_loadcmd_t ∷ a.loadcmds })
