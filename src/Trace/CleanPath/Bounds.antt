-- ===== src/Trace/CleanPath/Bounds.antt =====
-- `__darwintrace_cleanup_path` of src/darwintracelib1.0/darwintrace.c never makes a path longer.
use mac_ports_fork.CString.{Bytes}
use mac_ports_fork.Filemap.FilePath.{same_bytes}
use mac_ports_fork.Prelude.{
  ◌≤◌, [], ◌∷◌, Bool, true, false, Bool-cases, inl, inr, ◌==◌, ◌&&◌, arith, length, take,
  if◌then◌else◌, length-take_le, ltb, drop, ◌-◌, ℕ,
}
use mac_ports_fork.Trace.CleanPath.{rsrc_spec, strip_rsrc, cleanup_path}
use mac_ports_fork.Trace.CleanPath.Squeeze.{squeeze, squeeze_skip, squeeze_keep}
use mac_ports_fork.Trace.CleanPath.SamePath.{cleanup_path-squeeze}
use mac_ports_fork.Trace.Strings.{IsText}

length-squeeze : (saw : Bool) (s : Bytes) → length (squeeze saw s) ≤ length s
length-squeeze saw [] = unfold squeeze in omega arith
length-squeeze saw (c ∷ s) = elim (Bool-cases (saw && (c == b'/'))) [
  | inl skip ↦ rw (squeeze_skip saw c s skip) (omega (arith, length-squeeze true s))
  | inr keep ↦ rw (squeeze_keep saw c s keep) (omega (arith, length-squeeze (c == b'/') s))
]

length-strip_rsrc : (s : Bytes) → length (strip_rsrc s) ≤ length s
unfolding strip_rsrc
length-strip_rsrc s =
    either (ltb (length rsrc_spec) (length s) && same_bytes (drop kept s) rsrc_spec)
  where
    kept : ℕ
    kept = length s - length rsrc_spec

    either : (b : Bool) → length (if b then take kept s else s) ≤ length s
    either true = omega (arith, length-take_le kept s)
    either false = omega arith

pub length-cleanup_path : (s : Bytes) → IsText s → length (cleanup_path s) ≤ length s
length-cleanup_path s h =
    rw (cleanup_path-squeeze s h)
      (omega (arith, length-squeeze false (strip_rsrc s), length-strip_rsrc s))
