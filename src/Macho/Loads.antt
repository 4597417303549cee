-- ===== src/Macho/Loads.antt =====
-- The parser of src/machista1.0/libmachista.c on the files that Image specifies: it finds the
-- libraries that are loaded.
use mac_ports_fork.CString.{Bytes}
use mac_ports_fork.Prelude.{
  ℕ, suc, ◌+◌, ◌-◌, ◌^◌, ◌<◌, ◌≤◌, ◌≡◌, refl, ap, ◌∙◌, List, ◌∷◌, Option, some, false,
  if◌then◌else◌, ltb, drop, length, arith,
}
use mac_ports_fork.Macho.Mapping.{
  Mapping, Input, text, little, memory, field32, macho_read, macho_offset, strlcpy,
}
use mac_ports_fork.Macho.Result.{
  Arch, LoadCmd, State, Step, M, continue, ◌>>=◌, ◌>>◌, check, dereference, allocate, update_cmd,
  macho_loadcmdlist_append, create_macho_loadcmd_t,
}
use mac_ports_fork.Macho.Parse.{
  check_text, copy_text, load_dylib, handle, parse_command, dylib_command, load_command,
}
use mac_ports_fork.Macho.Reads.{macho_read-some}
use mac_ports_fork.Macho.Endless.{check-bind, dereference-bind}
use mac_ports_fork.Macho.Image.{
  Loading, plainly, weakly, reexported, loading_kind, Library, IsLibrary, put_library,
  field32-put32, strlcpy-name,
}

-- What is found of a library.
unfoldable pub to_loadcmd : Library → LoadCmd
to_loadcmd l = record {
  install_name = text l.name;
  kind = loading_kind l.loading;
  comp_version = l.compatible_word;
  current_version = l.version_word;
}

-- An architecture with one more of them.
unfoldable pub with_library : Library → Arch → Arch
unfolding to_loadcmd
with_library l a = record a { loadcmds = to_loadcmd l ∷ a.loadcmds }

module _ (m : Mapping) (input : Input) (l : Library) (is_library : IsLibrary l) (cmd : ℕ)
    (rest : Bytes) (found : drop cmd (memory m) ≡ put_library l rest) (after : input.start ≤ cmd)
    (room : cmd + (length l.name + 25) + 8 ≤ input.start + input.size) where
  abbrev fetch : ℕ → Option ℕ
  fetch = field32 little false m

  abbrev cmdsize : ℕ
  cmdsize = length l.name + 25

  size_word : fetch (cmd + 4) ≡ some cmdsize
  unfolding put_library
  size_word = field32-put32 m cmd 4 cmdsize _ _ found refl is_library.name_fits

  loading_lt : (k : Loading) → loading_kind k < 2 ^ 32
  loading_lt plainly = omega arith
  loading_lt weakly = omega arith
  loading_lt reexported = omega arith

  kind_word : fetch cmd ≡ some (loading_kind l.loading)
  unfolding put_library
  kind_word =
      ap fetch (omega arith)
      ∙ field32-put32 m cmd 0 (loading_kind l.loading) _ _ found refl (loading_lt l.loading)

  version_at : fetch (cmd + 16) ≡ some l.version_word
  unfolding put_library
  version_at = field32-put32 m cmd 16 l.version_word _ _ found refl is_library.version_fits

  compatible_at : fetch (cmd + 20) ≡ some l.compatible_word
  unfolding put_library
  compatible_at = field32-put32 m cmd 20 l.compatible_word _ _ found refl is_library.compatible_fits

  name_at : strlcpy m (cmd + 24) (cmdsize - dylib_command) ≡ some (text l.name)
  unfolding put_library
  name_at =
      ap (strlcpy m (cmd + 24)) (omega arith)
      ∙ strlcpy-name m cmd 24 _ l.name rest found refl is_library.nonzero

  large : ltb cmdsize dylib_command ≡ false
  large = ground arith

  text-bind :
      (f : ℕ → M (Unit {0})) (s : State)
      → (check_text fetch m input cmd cmdsize dylib_command >>= f) s ≡ f (cmd + 24) s
  unfolding check_text macho_offset
  text-bind f s =
      ap
        (λ b.
          continue
            ((if b
                then (λ s. Step.stop 8 s)
                else check (macho_read input (cmd + 24) (cmdsize - dylib_command)))
              s)
            f)
        large
      ∙ check-bind (macho_read input (cmd + 24) (cmdsize - dylib_command)) (cmd + 24) f s
          (macho_read-some input (cmd + 24) (cmdsize - dylib_command) (omega arith))

  named :
      (c : LoadCmd) (cs : List LoadCmd) (a : Arch) (r : List Arch) (k : ℕ)
      → copy_text fetch m input
          (λ n. update_cmd (λ c. record c { install_name = n }))
          (cmd + 24)
          (cmdsize - dylib_command)
          (record { archs = (record a { loadcmds = c ∷ cs }) ∷ r; allocs = suc k })
        ≡ Step.value tt (record {
          archs = (record a { loadcmds = (record c { install_name = text l.name }) ∷ cs }) ∷ r;
          allocs = k;
        })
  unfolding copy_text allocate update_cmd
  named c cs a r k =
      dereference-bind (strlcpy m (cmd + 24) (cmdsize - dylib_command)) (text l.name)
        (λ n. update_cmd (λ c. record c { install_name = n })) _ name_at

  -- The numbers of the command.
  abbrev versions : M (Unit {0})
  versions = do
    current ← dereference (fetch (cmd + 16))
    update_cmd (λ c. record c { current_version = current })
    compatible ← dereference (fetch (cmd + 20))
    update_cmd (λ c. record c { comp_version = compatible })
    update_cmd (λ c. record c { kind = loading_kind l.loading })

  -- The command appends the library to the architecture in front, with two allocations.
  loaded :
      (a : Arch) (r : List Arch) (k : ℕ)
      → load_dylib fetch m input
          (loading_kind l.loading)
          cmd
          cmdsize
          (record { archs = a ∷ r; allocs = suc (suc k) })
        ≡ Step.value tt (record { archs = with_library l a ∷ r; allocs = k })
  unfolding load_dylib macho_loadcmdlist_append allocate update_cmd create_macho_loadcmd_t
      with_library
  loaded a r k =
      text-bind _ (record { archs = a ∷ r; allocs = suc (suc k) })
      ∙ ap (λ t. continue t (λ u. versions)) (named create_macho_loadcmd_t a.loadcmds a r k)
      ∙ dereference-bind (fetch (cmd + 16)) l.version_word _ _ version_at
      ∙ dereference-bind (fetch (cmd + 20)) l.compatible_word _ _ compatible_at

  handled :
      (k : Loading) (s : State)
      → handle fetch m input (loading_kind k) cmd cmdsize s
        ≡ load_dylib fetch m input (loading_kind k) cmd cmdsize s
  unfolding handle
  handled plainly s = refl
  handled weakly s = refl
  handled reexported s = refl

  checked : (o : Option ℕ) (p : ℕ) (s : State) → o ≡ some p → check o s ≡ Step.value p s
  unfolding check
  checked o p s e = rw e refl

  -- A round of the loop: the library is found, and the next command follows at once.
  pub commanded :
      (a : Arch) (r : List Arch) (k : ℕ)
      → parse_command fetch m input cmd (record { archs = a ∷ r; allocs = suc (suc k) })
        ≡ Step.value (cmd + cmdsize) (record { archs = with_library l a ∷ r; allocs = k })
  unfolding parse_command macho_offset
  commanded a r k =
      dereference-bind (fetch (cmd + 4)) cmdsize _ _ size_word
      ∙ check-bind (macho_read input cmd cmdsize) cmd _ _
          (macho_read-some input cmd cmdsize (omega arith))
      ∙ dereference-bind (fetch cmd) (loading_kind l.loading) _ _ kind_word
      ∙ ap (λ t. continue t λ u. check (macho_read input (cmd + cmdsize) load_command))
          (handled l.loading _ ∙ loaded a r k)
      ∙ checked (macho_read input (cmd + cmdsize) load_command) (cmd + cmdsize) _
          (macho_read-some input (cmd + cmdsize) load_command (omega arith))
