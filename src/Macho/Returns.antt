-- ===== src/Macho/Returns.antt =====
-- `parse_macho` of src/machista1.0/libmachista.c on one architecture: each step stays in its window,
-- and ends with a result that fits or with an error code.
use mac_ports_fork.Prelude.{
  ℕ, zero, suc, ◌+◌, ◌-◌, ◌^◌, ◌<◌, ◌≤◌, ◌≡◌, Option, Bool-cases, inl, inr, ◌==◌, ltb, ◌||◌, length,
  arith,
}
use mac_ports_fork.Macho.Mapping.{Mapping, Input, macho_read, macho_offset, Name, null, strlcpy}
use mac_ports_fork.Macho.Result.{M, check, dereference, macho_erange}
use mac_ports_fork.Macho.Parse.{
  check_text, copy_text, load_rpath, id_dylib, load_dylib, handle, parse_command, load_commands,
  parse_thin, rpath_command, dylib_command, load_command, lc_rpath, lc_id_dylib, lc_load_dylib,
  lc_load_weak_dylib, lc_reexport_dylib,
}
use mac_ports_fork.Macho.Fits.{
  NameFits, Runs, Anything, fails, out_of_range, bind-Runs, weaken-Runs, pure-Runs, check-Runs,
  dereference-Runs, allocate-Runs, update_arch-Runs, update_cmd-Runs, archlist_append-Runs,
  loadcmdlist_append-Runs,
}
use mac_ports_fork.Macho.Reads.{macho_read_bounds, HasWord, strlcpy-some}

-- A checked read in a window that lies in the file.
pub macho_read-Runs :
    (n : ℕ) (input : Input) (a len : ℕ)
    → input.start ≤ a
    → Runs n (λ p. (p ≡ a) × (a + len ≤ input.start + input.size)) (check (macho_read input a len))
macho_read-Runs n input a len h =
    check-Runs n _ (macho_read input a len) λ p e. omega (arith, macho_read_bounds input a len p e)

pub word-Runs : (n : ℕ) (o : Option ℕ) → HasWord o → Runs n (λ x. x < 2 ^ 32) (dereference o)
word-Runs n o w = dereference-Runs n _ o w

module _ (m : Mapping) (padded : 0 < m.padding) (input : Input)
    (inside : input.start + input.size ≤ length m.file) (fetch : ℕ → Option ℕ)
    (fetched : (a : ℕ) → a + 4 ≤ length m.file → HasWord (fetch a)) where
  fetch-Runs :
      (a : ℕ)
      → a + 4 ≤ length m.file
      → Runs (length m.file) (λ x. x < 2 ^ 32) (dereference (fetch a))
  fetch-Runs a h = word-Runs (length m.file) (fetch a) (fetched a h)

  check_text-Runs :
      (cmd cmdsize header : ℕ)
      → input.start ≤ cmd
      → Runs
          (length m.file)
          (λ p. (p ≡ cmd + header) × (header ≤ cmdsize))
          (check_text fetch m input cmd cmdsize header)
  unfolding check_text macho_offset
  check_text-Runs cmd cmdsize header h = elim (Bool-cases (ltb cmdsize header)) [
    | inl e ↦ rw e (λ s f. fails macho_erange s out_of_range f)
    | inr e ↦ rw e (
        check-Runs (length m.file) _ _
          λ p f. ground (arith, macho_read_bounds input (cmd + header) (cmdsize - header) p f))
  ]

  copy_text-Runs :
      (put : Name → M (Unit {0})) (src size : ℕ)
      → ((name : Name) → NameFits (length m.file) name → Runs (length m.file) Anything (put name))
      → src + size ≤ length m.file
      → Runs (length m.file) Anything (copy_text fetch m input put src size)
  unfolding copy_text
  copy_text-Runs put src size stored h = bind-Runs (length m.file) (stored null tt) λ u v.
      bind-Runs (length m.file) (allocate-Runs (length m.file)) λ u' v'.
        bind-Runs (length m.file)
          (dereference-Runs (length m.file) (NameFits (length m.file)) (strlcpy m src size)
            (strlcpy-some m src padded (omega arith) size (omega arith)))
          stored

  module _ (cmd cmdsize : ℕ) (after : input.start ≤ cmd)
      (whole : cmd + cmdsize ≤ input.start + input.size) where
    load_rpath-Runs : Runs (length m.file) Anything (load_rpath fetch m input cmd cmdsize)
    unfolding load_rpath
    load_rpath-Runs =
        bind-Runs (length m.file) (check_text-Runs cmd cmdsize rpath_command after) λ p q.
          copy_text-Runs _ p (cmdsize - rpath_command)
            (λ name fits.
              update_arch-Runs (length m.file) (λ a. record a { rpath = name })
                (λ a h. ground arith))
            (omega arith)

    id_dylib-Runs : Runs (length m.file) Anything (id_dylib fetch m input cmd cmdsize)
    unfolding id_dylib
    id_dylib-Runs =
        bind-Runs (length m.file) (check_text-Runs cmd cmdsize dylib_command after) λ p q.
          bind-Runs (length m.file)
            (copy_text-Runs _ p (cmdsize - dylib_command)
              (λ name fits.
                update_arch-Runs (length m.file) (λ a. record a { install_name = name })
                  (λ a h. ground arith))
              (omega arith))
            λ u v. bind-Runs (length m.file) (fetch-Runs (cmd + 16) (omega arith)) λ x xw.
              bind-Runs (length m.file)
                (update_arch-Runs (length m.file) (λ a. record a { current_version = x })
                  (λ a h. ground arith))
                λ u' v'. bind-Runs (length m.file) (fetch-Runs (cmd + 20) (omega arith)) λ y yw.
                  update_arch-Runs (length m.file) (λ a. record a { comp_version = y })
                    (λ a h. ground arith)

    load_dylib-Runs :
        (cmd_type : ℕ)
        → Runs (length m.file) Anything (load_dylib fetch m input cmd_type cmd cmdsize)
    unfolding load_dylib
    load_dylib-Runs cmd_type =
        bind-Runs (length m.file) (check_text-Runs cmd cmdsize dylib_command after) λ p q.
          bind-Runs (length m.file) (loadcmdlist_append-Runs (length m.file)) λ u v.
            bind-Runs (length m.file)
              (copy_text-Runs _ p (cmdsize - dylib_command)
                (λ name fits.
                  update_cmd-Runs (length m.file) (λ c. record c { install_name = name })
                    (λ c h. ground arith))
                (omega arith))
              λ u v. bind-Runs (length m.file) (fetch-Runs (cmd + 16) (omega arith)) λ x xw.
                bind-Runs (length m.file)
                  (update_cmd-Runs (length m.file) (λ c. record c { current_version = x })
                    (λ c h. ground arith))
                  λ u v. bind-Runs (length m.file) (fetch-Runs (cmd + 20) (omega arith)) λ y yw.
                    bind-Runs (length m.file)
                      (update_cmd-Runs (length m.file) (λ c. record c { comp_version = y })
                        (λ c h. ground arith))
                      λ u v.
                        update_cmd-Runs (length m.file) (λ c. record c { kind = cmd_type })
                          (λ c h. ground arith)

    handle-Runs :
        (cmd_type : ℕ) → Runs (length m.file) Anything (handle fetch m input cmd_type cmd cmdsize)
    unfolding handle
    handle-Runs t = elim (Bool-cases (t == lc_rpath)) [
      | inl e ↦ rw e load_rpath-Runs
      | inr e ↦ rw e (elim (Bool-cases (t == lc_id_dylib)) [
        | inl e ↦ rw e id_dylib-Runs
        | inr e ↦
            rw e
              (elim (Bool-cases
                (t == lc_load_weak_dylib || t == lc_reexport_dylib || t == lc_load_dylib)) [
                  | inl e ↦ rw e (load_dylib-Runs t)
                  | inr e ↦ rw e (pure-Runs (length m.file))
                ])
      ])
    ]

  -- A command starts with the 8 bytes that its size stands in.
  parse_command-Runs :
      (cmd : ℕ)
      → input.start ≤ cmd
      → cmd + load_command ≤ input.start + input.size
      → Runs
          (length m.file)
          (λ p. (input.start ≤ p) × (p + load_command ≤ input.start + input.size))
          (parse_command fetch m input cmd)
  unfolding parse_command macho_offset
  parse_command-Runs cmd after room =
      bind-Runs (length m.file) (fetch-Runs (cmd + 4) (omega arith)) λ size sw.
        bind-Runs (length m.file) (macho_read-Runs (length m.file) input cmd size after) λ c cq.
          bind-Runs (length m.file) (fetch-Runs c (omega arith)) λ t tw.
            bind-Runs (length m.file) (handle-Runs c size (omega arith) (omega arith) t) λ u v.
              weaken-Runs (length m.file) (λ p q. omega arith)
                (macho_read-Runs (length m.file) input (c + size) load_command (omega arith))

  load_commands-Runs :
      (rounds cmd : ℕ)
      → input.start ≤ cmd
      → cmd + load_command ≤ input.start + input.size
      → Runs (length m.file) Anything (load_commands fetch m input rounds cmd)
  unfolding load_commands
  load_commands-Runs zero cmd after room = pure-Runs (length m.file)
  load_commands-Runs (suc rounds) cmd after room =
      bind-Runs (length m.file) (parse_command-Runs cmd after room)
        λ p q. load_commands-Runs rounds p q.0 q.1

  -- A file of one architecture, whose header has the 20 bytes that hold its fields.
  pub parse_thin-Runs :
      (header_size : ℕ)
      → 20 ≤ header_size
      → Runs (length m.file) Anything (parse_thin fetch m input header_size)
  unfolding parse_thin macho_offset
  parse_thin-Runs header_size large =
      bind-Runs (length m.file)
        (macho_read-Runs (length m.file) input input.start header_size (omega arith))
        λ h hq. bind-Runs (length m.file) (archlist_append-Runs (length m.file)) λ u v.
          bind-Runs (length m.file) (fetch-Runs (h + 4) (omega arith)) λ x xw.
            bind-Runs (length m.file)
              (update_arch-Runs (length m.file) (λ a. record a { arch = x }) (λ a h. ground arith))
              λ u v.
                bind-Runs (length m.file)
                  (macho_read-Runs (length m.file) input (h + header_size) load_command
                    (omega arith))
                  λ c cq.
                    bind-Runs (length m.file) (fetch-Runs (h + 16) (omega arith))
                      λ n nw. load_commands-Runs n c (omega arith) (omega arith)
