-- ===== src/Macho/Slices.antt =====
-- Universal files: `parse_macho` of src/machista1.0/libmachista.c calls itself on the windows that
-- the entries of the header describe.
use mac_ports_fork.Prelude.{
  ℕ, zero, suc, ◌+◌, ◌*◌, ◌<◌, ◌≤◌, ◌≡◌, refl, sym, Bool, some, length, arith,
}
use mac_ports_fork.Macho.Mapping.{
  Host, Mapping, Input, macho_read, macho_offset, read32, field32, fat32,
}
use mac_ports_fork.Macho.Result.{State, M, dereference, macho_emagic}
use mac_ports_fork.Macho.Parse.{
  Format, thin, universal, unknown, format, slice, slices, parse_universal, parse_format,
  parse_macho, fat_header, fat_arch,
}
use mac_ports_fork.Macho.HostOrder.{AreBytes}
use mac_ports_fork.Macho.Fits.{
  Finishes, Fits, Runs, Anything, fails, not_macho, bind-Runs, pure-Runs, dereference-Runs,
}
use mac_ports_fork.Macho.Reads.{read32-HasWord, field32-HasWord, fat32-HasWord, macho_read-some}
use mac_ports_fork.Macho.Returns.{macho_read-Runs, parse_thin-Runs}

-- The header of the window `w` is a universal one, and one of its entries has this offset and size.
pub data EntryOf (host : Host) (m : Mapping) (w : Input) (offset size : ℕ) : Type 0 where
  entry_of :
      (magic nfat i : ℕ)
      → read32 host m w.start ≡ some magic
      → format magic ≡ universal
      → fat32 host m (w.start + 4) ≡ some nfat
      → i < nfat
      → fat32 host m (w.start + fat_header + i * fat_arch + 8) ≡ some offset
      → fat32 host m (w.start + fat_header + i * fat_arch + 12) ≡ some size
      → EntryOf host m w offset size

-- The windows that entries lead to.
pub data Nested (host : Host) (m : Mapping) (top : Input) : Input → Type 0 where
  whole : Nested host m top top
  nested :
      {w : Input} (offset size : ℕ)
      → Nested host m top w
      → EntryOf host m w offset size
      → Nested host m top (record { start = w.start + offset; size = size })

-- No entry describes a window that begins with its own header, nor one without room for a header.
pub record IsSliced (host : Host) (m : Mapping) (top : Input) : Type 0 where
  pub sound :
      (w : Input) (offset size : ℕ)
      → Nested host m top w
      → EntryOf host m w offset size
      → (0 < offset) × (8 ≤ size)

format_size : (x : ℕ) (swap : Bool) (n : ℕ) → format x ≡ thin swap n → 20 ≤ n
unfolding format
format_size x swap n h = ground arith

module _ (host : Host) (m : Mapping) (bytes : AreBytes m.file) (padded : 0 < m.padding) where
  value-Runs :
      (a : ℕ)
      → a + 4 ≤ length m.file
      → Runs (length m.file) (λ x. fat32 host m a ≡ some x) (dereference (fat32 host m a))
  value-Runs a h =
      let (x, e, l) = fat32-HasWord m bytes host a h in
      dereference-Runs (length m.file) _ _ (x, e, e)

  module _ (w : Input) (inside : w.start + w.size ≤ length m.file) (parse : Input → M (Unit {0}))
      (parsed : (offset size : ℕ)
        → EntryOf host m w offset size
        → offset + size ≤ w.size
        → Runs (length m.file) Anything (parse (record { start = w.start + offset; size = size })))
      (magic nfat : ℕ) (at_start : read32 host m w.start ≡ some magic)
      (announced : format magic ≡ universal) (count : fat32 host m (w.start + 4) ≡ some nfat) where
    slice-Runs :
        (i : ℕ)
        → i < nfat
        → Runs
            (length m.file)
            Anything
            (slice (fat32 host m) parse w (w.start + fat_header + i * fat_arch))
    unfolding slice macho_offset
    slice-Runs i h =
        bind-Runs (length m.file)
          (macho_read-Runs (length m.file) w (w.start + fat_header + i * fat_arch) fat_arch
            (omega arith))
          λ a aq. bind-Runs (length m.file) (value-Runs (a + 12) (omega arith)) λ size sq.
            bind-Runs (length m.file) (value-Runs (a + 8) (omega arith)) λ offset oq.
              bind-Runs (length m.file)
                (macho_read-Runs (length m.file) w (w.start + offset) size (omega arith))
                λ p pq. rw pq.0 (
                  parsed offset size
                    (entry_of magic nfat i at_start announced count h (rw (sym aq.0) oq)
                      (rw (sym aq.0) sq))
                    (omega arith))

    slices-Runs :
        (rounds i : ℕ)
        → i + rounds ≡ nfat
        → Runs
            (length m.file)
            Anything
            (slices (fat32 host m) parse w rounds (w.start + fat_header + i * fat_arch))
    unfolding slices
    slices-Runs zero i h = pure-Runs (length m.file)
    slices-Runs (suc rounds) i h = bind-Runs (length m.file) (slice-Runs i (omega arith)) λ u v.
        let e : w.start + fat_header + suc i * fat_arch
            ≡ w.start + fat_header + i * fat_arch + fat_arch =
          omega arith in
        rw (sym e) (slices-Runs rounds (suc i) (omega arith))

    -- The header itself, in a window with room for it.
    universal-Runs :
        8 ≤ w.size → Runs (length m.file) Anything (parse_universal (fat32 host m) parse w)
    unfolding parse_universal macho_offset
    universal-Runs room =
        bind-Runs (length m.file)
          (dereference-Runs (length m.file) (λ p. p ≡ w.start) (macho_read w w.start fat_header)
            (w.start, macho_read-some w w.start fat_header (omega arith), refl))
          λ h hq. rw hq (
            bind-Runs (length m.file)
              (dereference-Runs (length m.file) (λ n. n ≡ nfat) (fat32 host m (w.start + 4))
                (nfat, count, refl))
              λ n nq. rw nq (
                bind-Runs (length m.file)
                  (macho_read-Runs (length m.file) w (w.start + fat_header) fat_arch (omega arith))
                  λ p pq.
                    let e : p ≡ w.start + fat_header + 0 * fat_arch = omega arith in
                    rw e (slices-Runs nfat 0 (omega arith))))

  module _ (w : Input) (room : 8 ≤ w.size) (inside : w.start + w.size ≤ length m.file) where
    magic-Runs :
        (p : ℕ)
        → p ≡ w.start
        → Runs (length m.file) (λ x. read32 host m w.start ≡ some x) (dereference (read32 host m p))
    magic-Runs p e =
        let (x, f, l) = read32-HasWord m bytes host w.start (omega arith) in
        rw e (dereference-Runs (length m.file) _ (read32 host m w.start) (x, f, f))

    -- The rest of the call, by the format that the magic announces.
    format-Runs :
        (parse : Input → M (Unit {0}))
        → ((offset size : ℕ)
            → EntryOf host m w offset size
            → offset + size ≤ w.size
            → Runs
                (length m.file)
                Anything
                (parse (record { start = w.start + offset; size = size })))
        → (magic : ℕ) (f : Format) → read32 host m w.start ≡ some magic
        → format magic ≡ f
        → Runs (length m.file) Anything (parse_format host m parse w f)
    unfolding parse_format
    format-Runs parse parsed magic (thin swap n) at e =
        parse_thin-Runs m padded w inside (field32 host swap m) (field32-HasWord m bytes host swap)
          n (format_size magic swap n e)
    format-Runs parse parsed magic universal at e =
        let (nfat, count, l) = fat32-HasWord m bytes host (w.start + 4) (omega arith) in
        universal-Runs w inside parse parsed magic nfat at e count room
    format-Runs parse parsed magic unknown at e = λ s f. fails macho_emagic s not_macho f

  module _ (top : Input) (sliced : IsSliced host m top) where
    parse-Runs :
        (depth : ℕ) (w : Input)
        → Nested host m top w
        → w.size < depth
        → 8 ≤ w.size
        → w.start + w.size ≤ length m.file
        → Runs (length m.file) Anything (parse_macho host m depth w)
    unfolding parse_macho
    parse-Runs zero w nest enough room inside = absurd (omega arith)
    parse-Runs (suc depth) w nest enough room inside =
        bind-Runs (length m.file) (macho_read-Runs (length m.file) w w.start 4 (omega arith))
          λ p pq. bind-Runs (length m.file) (magic-Runs w room inside p pq.0) λ magic at.
            format-Runs w room inside (parse_macho host m depth)
              (λ offset size e fits.
                let (o, z) = sliced.sound w offset size nest e in
                parse-Runs depth (record { start = w.start + offset; size = size })
                  (nested offset size nest e) (omega arith) z (omega arith))
              magic (format magic) at refl

-- The parser ends, without a crash, with a result that fits the file or with one of its error
-- codes, for a file of bytes whose last page is not full and a result that fits before, in a window
-- of the file of 8 bytes or more whose universal headers, nested ones included, have no entry at
-- offset 0 and none below 8 bytes, on a stack that holds more calls than the window has bytes.
pub parse_macho-Finishes :
    (host : Host) (m : Mapping) (top : Input) (depth : ℕ) (s : State)
    → AreBytes m.file
    → 0 < m.padding
    → IsSliced host m top
    → 8 ≤ top.size
    → top.start + top.size ≤ length m.file
    → top.size < depth
    → Fits (length m.file) s
    → Finishes (length m.file) Anything (parse_macho host m depth top s)
parse_macho-Finishes host m top depth s bytes padded sliced room inside enough fits =
    parse-Runs host m bytes padded top sliced depth top whole enough room inside s fits
