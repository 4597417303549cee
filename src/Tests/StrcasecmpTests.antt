-- ===== src/Tests/StrcasecmpTests.antt =====
-- Runs of src/pextlib1.0/strcasecmp.c.
use mac_ports_fork.CString.{Bytes, strcasecmp, strncasecmp, tolower}
use mac_ports_fork.Strcasecmp.{result, decrement, xstrncasecmp}
use mac_ports_fork.Strcasecmp.Agrees.{sign, xstrncasecmp-strncasecmp}
use mac_ports_fork.Prelude.{[], ◌∷◌, ◌≡◌, refl, arith, if◌then◌else◌, ◌==◌, Ordering}
use mac_ports_fork.Prelude.Int.{negsuc}

-- "Foo" and "fOb".
abbrev foo : Bytes
foo = b'F' ∷ b'o' ∷ b'o' ∷ []

abbrev fob : Bytes
fob = b'f' ∷ b'O' ∷ b'b' ∷ []

xstrncasecmp-strncasecmp_example :
    sign (xstrncasecmp fob foo 0) ≡ (if 0 == 0 then strcasecmp fob foo else strncasecmp 0 fob foo)
xstrncasecmp-strncasecmp_example =
    xstrncasecmp-strncasecmp 0 fob foo (omega arith) (omega arith) (omega arith) (omega arith)

-- With a maximum of 0 the whole strings are compared, which `strncasecmp` would not do.
whole_strings : xstrncasecmp fob foo 0 ≡ negsuc 12
unfolding xstrncasecmp result decrement tolower
whole_strings = refl

nothing_compared : strncasecmp 0 fob foo ≡ Ordering.eq
unfolding strncasecmp
nothing_compared = refl
