-- ===== src/Registry/Sessions/Grown.antt =====
-- The log of a connection behind the calls of src/cregistry/registry.c.
use mac_ports_fork.Prelude.{same_result, ◌≡◌, refl, List, [], ◌∷◌, some}
use mac_ports_fork.Registry.Connection.{
  Status, ok, busy, row, done, failed, Statement, detach_database, prepared, executed, Log,
  Connection, ask, retry,
}
use mac_ports_fork.Registry.Sessions.{after, begun, Fits, IsNested}

-- The log behind one executed statement.
abbrev pub Grown : Statement → Log → Status × Connection → Type 0
Grown q log (s, conn) = IsNested conn.log × (begun conn.log ≡ after s q (begun log))

pub retry-Grown :
    (q : Statement) (outcomes : List Status) (log : Log) (r : Status × Connection)
    → Fits q (begun log)
    → IsNested log
    → retry (executed q) outcomes log ≡ some r
    → Grown q log r
unfolding retry
retry-Grown q [] log r f n e = absurd cc
retry-Grown q (busy ∷ later) log r f n e =
    retry-Grown q later ((executed q, busy) ∷ log) r f (f, n) e
retry-Grown q (ok ∷ later) log r f n e = same_result (Grown q log) e ((f, n), refl)
retry-Grown q (row ∷ later) log r f n e = same_result (Grown q log) e ((f, n), refl)
retry-Grown q (done ∷ later) log r f n e = same_result (Grown q log) e ((f, n), refl)
retry-Grown q (failed ∷ later) log r f n e = same_result (Grown q log) e ((f, n), refl)

pub ask-Grown :
    (q : Statement) (conn : Connection) (r : Status × Connection)
    → Fits q (begun conn.log)
    → IsNested conn.log
    → ask (executed q) conn ≡ some r
    → Grown q conn.log r
unfolding ask
ask-Grown q conn r f n e = by_outcomes conn.outcomes e
  where
    by_outcomes :
        (os : List Status)
        → ask (executed q) (record conn { outcomes = os }) ≡ some r
        → Grown q conn.log r
    by_outcomes [] e = absurd cc
    by_outcomes (s ∷ later) e = same_result (Grown q conn.log) e ((f, n), refl)

-- A log that is longer by calls that neither begin nor end a transaction.
abbrev pub Same : Log → Status × Connection → Type 0
Same log (s, conn) = IsNested conn.log × (begun conn.log ≡ begun log)

pub retry-Same :
    (outcomes : List Status) (log : Log) (r : Status × Connection)
    → IsNested log
    → retry (executed detach_database) outcomes log ≡ some r
    → Same log r
unfolding retry
retry-Same [] log r n e = absurd cc
retry-Same (busy ∷ later) log r n e =
    retry-Same later ((executed detach_database, busy) ∷ log) r (tt, n) e
retry-Same (ok ∷ later) log r n e = same_result (Same log) e ((tt, n), refl)
retry-Same (row ∷ later) log r n e = same_result (Same log) e ((tt, n), refl)
retry-Same (done ∷ later) log r n e = same_result (Same log) e ((tt, n), refl)
retry-Same (failed ∷ later) log r n e = same_result (Same log) e ((tt, n), refl)

pub ask-Same :
    (q : Statement) (conn : Connection) (r : Status × Connection)
    → IsNested conn.log
    → ask (prepared q) conn ≡ some r
    → Same conn.log r
unfolding ask
ask-Same q conn r n e = by_outcomes conn.outcomes e
  where
    by_outcomes :
        (os : List Status)
        → ask (prepared q) (record conn { outcomes = os }) ≡ some r
        → Same conn.log r
    by_outcomes [] e = absurd cc
    by_outcomes (s ∷ later) e = same_result (Same conn.log) e (n, refl)
