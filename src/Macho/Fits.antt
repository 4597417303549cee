-- ===== src/Macho/Fits.antt =====
-- What a result of `parse_macho` of src/machista1.0/libmachista.c may hold, and how its steps end:
-- the postconditions of the steps, with a rule for each construct.
use mac_ports_fork.Prelude.{
  ℕ, zero, suc, ◌^◌, ◌<◌, ◌≡◌, refl, List, [], ◌∷◌, Option, none, some, length, All, arith,
}
use mac_ports_fork.Macho.Mapping.{Name, null, unset, text}
use mac_ports_fork.Macho.Result.{
  Arch, LoadCmd, State, Step, M, continue, ◌>>=◌, pure, check, dereference, on_head, update_arch,
  update_cmd, allocate, create_macho_arch_t, create_macho_loadcmd_t, macho_archlist_append,
  macho_loadcmdlist_append, macho_emem, macho_erange, macho_emagic,
}

-- A text without NUL that is shorter than the file.
abbrev pub NameFits : ℕ → Name → Type 0
NameFits n null = Unit
NameFits n unset = Unit
NameFits n (text t) = (length t < n) × All (λ c. 0 < c) t

pub record LoadCmdFits (n : ℕ) (c : LoadCmd) : Type 0 where
  pub name_fits : NameFits n c.install_name
  pub version_word : c.current_version < 2 ^ 32
  pub comp_version_word : c.comp_version < 2 ^ 32

pub record ArchFits (n : ℕ) (a : Arch) : Type 0 where
  pub name_fits : NameFits n a.install_name
  pub rpath_fits : NameFits n a.rpath
  pub arch_word : a.arch < 2 ^ 32
  pub version_word : a.current_version < 2 ^ 32
  pub comp_version_word : a.comp_version < 2 ^ 32
  pub loadcmds_fit : All (LoadCmdFits n) a.loadcmds

abbrev pub Fits : ℕ → State → Type 0
Fits n s = All (ArchFits n) s.archs

-- The codes of libmachista.h that `parse_macho` returns on errors.
pub data IsError : ℕ → Type 0 where
  no_memory : IsError macho_emem
  out_of_range : IsError macho_erange
  not_macho : IsError macho_emagic

-- The step returns a value with P, or an error code, and its result fits; it does not crash.
pub data Finishes (n : ℕ) {A : Type 0} (P : A → Type 0) : Step A → Type 0 where
  returns : (a : A) (s : State) → P a → Fits n s → Finishes n P (Step.value a s)
  fails : (c : ℕ) (s : State) → IsError c → Fits n s → Finishes n P (Step.stop c s)

abbrev pub Runs : ℕ → {A : Type 0} → (A → Type 0) → M A → Type 0
Runs n P m = (s : State) → Fits n s → Finishes n P (m s)

abbrev pub Anything : Unit {0} → Type 0
Anything u = Unit

module _ (n : ℕ) {A B : Type 0} {P : A → Type 0} {Q : B → Type 0} where
  continue-Finishes :
      (r : Step A) (f : A → M B)
      → Finishes n P r
      → ((a : A) → P a → Runs n Q (f a))
      → Finishes n Q (continue r f)
  continue-Finishes r f (returns a s p h) next = next a p s h
  continue-Finishes r f (fails c s e h) next = fails c s e h

  pub bind-Runs :
      {m : M A} {f : A → M B} → Runs n P m → ((a : A) → P a → Runs n Q (f a)) → Runs n Q (m >>= f)
  bind-Runs {m} {f} r next s h = continue-Finishes (m s) f (r s h) next

module _ (n : ℕ) {A : Type 0} {P Q : A → Type 0} (weaker : (a : A) → P a → Q a) where
  weaken-Finishes : (r : Step A) → Finishes n P r → Finishes n Q r
  weaken-Finishes r (returns a s p h) = returns a s (weaker a p) h
  weaken-Finishes r (fails c s e h) = fails c s e h

  pub weaken-Runs : {m : M A} → Runs n P m → Runs n Q m
  weaken-Runs {m} r s h = weaken-Finishes (m s) (r s h)

module _ (n : ℕ) where
  pub pure-Runs : Runs n Anything (pure tt)
  pure-Runs s h = returns tt s tt h

  pub check-Runs :
      (P : ℕ → Type 0) (o : Option ℕ) → ((p : ℕ) → o ≡ some p → P p) → Runs n P (check o)
  unfolding check
  check-Runs P none h s f = fails macho_erange s out_of_range f
  check-Runs P (some p) h s f = returns p s (h p refl) f

  pub dereference-Runs :
      {A : Type 0} (P : A → Type 0) (o : Option A)
      → (x : A) × (o ≡ some x) × P x
      → Runs n P (dereference o)
  unfolding dereference
  dereference-Runs P o (x, e, p) s f = rw e (returns x s p f)

  pub allocate-Runs : Runs n Anything allocate
  unfolding allocate
  allocate-Runs s f =
      elim s.allocs
        as (λ k. Finishes n Anything (elim k [
          | zero ↦ Step.stop macho_emem s
          | suc k ↦ Step.value tt (record s { allocs = k })
        ])) [
          | zero ↦ fails macho_emem s no_memory f
          | suc k ↦ returns tt (record s { allocs = k }) tt f
        ]

  All-on_head :
      {A : Type 0} (P : A → Type 0) (f : A → A) (l : List A)
      → ((a : A) → P a → P (f a))
      → All P l
      → All P (on_head f l)
  unfolding on_head
  All-on_head P f [] keep h = tt
  All-on_head P f (a ∷ r) keep h = (keep a h.0, h.1)

  pub update_arch-Runs :
      (f : Arch → Arch)
      → ((a : Arch) → ArchFits n a → ArchFits n (f a))
      → Runs n Anything (update_arch f)
  unfolding update_arch
  update_arch-Runs f keep s h =
      returns tt (record s { archs = on_head f s.archs }) tt
        (All-on_head (ArchFits n) f s.archs keep h)

  on_loadcmds :
      (f : List LoadCmd → List LoadCmd)
      → ((l : List LoadCmd) → All (LoadCmdFits n) l → All (LoadCmdFits n) (f l))
      → (a : Arch) → ArchFits n a
      → ArchFits n (record a { loadcmds = f a.loadcmds })
  on_loadcmds f keep a h = record {
    name_fits = h.name_fits;
    rpath_fits = h.rpath_fits;
    arch_word = h.arch_word;
    version_word = h.version_word;
    comp_version_word = h.comp_version_word;
    loadcmds_fit = keep a.loadcmds h.loadcmds_fit;
  }

  pub update_cmd-Runs :
      (f : LoadCmd → LoadCmd)
      → ((c : LoadCmd) → LoadCmdFits n c → LoadCmdFits n (f c))
      → Runs n Anything (update_cmd f)
  unfolding update_cmd
  update_cmd-Runs f keep =
      update_arch-Runs (λ a. record a { loadcmds = on_head f a.loadcmds })
        (on_loadcmds (on_head f) λ l. All-on_head (LoadCmdFits n) f l keep)

  pub archlist_append-Runs : Runs n Anything macho_archlist_append
  unfolding macho_archlist_append create_macho_arch_t
  archlist_append-Runs =
      bind-Runs n allocate-Runs λ u v s h.
        returns tt (record s { archs = create_macho_arch_t ∷ s.archs }) tt (omega arith, h)

  pub loadcmdlist_append-Runs : Runs n Anything macho_loadcmdlist_append
  unfolding macho_loadcmdlist_append create_macho_loadcmd_t
  loadcmdlist_append-Runs = bind-Runs n allocate-Runs λ u v.
      update_arch-Runs (λ a. record a { loadcmds = create_macho_loadcmd_t ∷ a.loadcmds })
        (on_loadcmds (◌∷◌ create_macho_loadcmd_t) λ l h. (omega arith, h))
