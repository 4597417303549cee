-- ===== src/Macho/Endless.antt =====
-- Universal files that contain themselves: the recursion of `parse_macho` of
-- src/machista1.0/libmachista.c has no bound of its own.
use mac_ports_fork.Prelude.{ℕ, zero, suc, ◌+◌, ◌≤◌, ◌≡◌, refl, ap, ◌∙◌, Option, some, arith}
use mac_ports_fork.Macho.Mapping.{Host, Mapping, Input, macho_offset, read32, fat32}
use mac_ports_fork.Macho.Result.{State, M, Step, continue, ◌>>=◌, check, dereference}
use mac_ports_fork.Macho.Parse.{
  universal, format, slice, slices, parse_universal, parse_format, parse_macho, fat_header,
  fat_arch,
}
use mac_ports_fork.Macho.Reads.{macho_read-some}

pub check-bind :
    {B : Type 0} (o : Option ℕ) (p : ℕ) (f : ℕ → M B) (s : State)
    → o ≡ some p
    → (check o >>= f) s ≡ f p s
unfolding check
check-bind o p f s e = rw e refl

pub dereference-bind :
    {A B : Type 0} (o : Option A) (p : A) (f : A → M B) (s : State)
    → o ≡ some p
    → (dereference o >>= f) s ≡ f p s
unfolding dereference
dereference-bind o p f s e = rw e refl

module _ (host : Host) (m : Mapping) (w : Input) (magic n : ℕ)
    (at_start : read32 host m w.start ≡ some magic) (announced : format magic ≡ universal)
    (count : fat32 host m (w.start + 4) ≡ some (suc n))
    (offset : fat32 host m (w.start + fat_header + 8) ≡ some 0)
    (size : fat32 host m (w.start + fat_header + 12) ≡ some w.size) (room : 28 ≤ w.size) where
  slice-again :
      (parse : Input → M (Unit {0})) (s : State)
      → slice (fat32 host m) parse w (w.start + fat_header) s ≡ parse w s
  unfolding slice macho_offset
  slice-again parse s =
      check-bind _ _ _ s (macho_read-some w (w.start + fat_header) fat_arch (omega arith))
      ∙ dereference-bind _ _ _ s size
      ∙ dereference-bind _ _ _ s offset
      ∙ check-bind _ _ _ s (macho_read-some w (w.start + 0) w.size (omega arith))
      ∙ ap (λ a. parse (record w { start = a }) s) (omega arith)

  -- A window of 28 bytes or more that holds a universal file whose first entry describes the whole
  -- window, offset 0 and all its bytes, is parsed again inside itself, whatever the depth of the
  -- stack: no depth gives a result or a code.
  pub parse_macho-exhausted :
      (depth : ℕ) (s : State) → parse_macho host m depth w s ≡ Step.exhausted
  unfolding parse_macho parse_format parse_universal macho_offset slices
  parse_macho-exhausted zero s = refl
  parse_macho-exhausted (suc depth) s =
      check-bind _ _ _ s (macho_read-some w w.start 4 (omega arith))
      ∙ dereference-bind _ _ _ s at_start
      ∙ ap (λ f. parse_format host m (parse_macho host m depth) w f s) announced
      ∙ dereference-bind _ _ _ s (macho_read-some w w.start fat_header (omega arith))
      ∙ dereference-bind _ _ _ s count
      ∙ check-bind _ _ _ s (macho_read-some w (w.start + fat_header) fat_arch (omega arith))
      ∙ ap
          (λ r. continue r λ u.
            slices (fat32 host m) (parse_macho host m depth) w n (w.start + fat_header + fat_arch))
          (slice-again (parse_macho host m depth) s ∙ parse_macho-exhausted depth s)
