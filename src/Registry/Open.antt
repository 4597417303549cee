-- ===== src/Registry/Open.antt =====
-- The making of connections: `reg_open` and `reg_vacuum` of src/cregistry/registry.c, and `init_db`
-- and `sql_regexp` of src/cregistry/sql.c.
use mac_ports_fork.Prelude.{◌>>=◌, [], Option, none, some, Bool, true, false, if◌then◌else◌}
use mac_ports_fork.Registry.Connection.{
  Status, ok, vacuum, prepared, executed, Connection, ask, retry, ask_until_free,
}
use mac_ports_fork.Registry.Schema.{do_queries, Ran}
use mac_ports_fork.Registry.Transactions.{sqlite_error, Error, Answer, success, threw, Registry}

-- What Tcl's matcher says: no match, a match, or an invalid pattern; and what the SQL function gives.
pub data Match : Type 0 where
  unmatched matched invalid_pattern : Match

unfoldable pub sql_regexp : Match → Option Bool
sql_regexp unmatched = some false
sql_regexp matched = some true
sql_regexp invalid_pattern = none

-- The function and the collation are registered without a look at the result; the list of queries is
-- empty.
unfoldable pub init_db : Connection → Ran
unfolding do_queries
init_db conn = do_queries [] conn

-- What `reg_open` leaves: the registry, or an error, which is not written where `malloc` fails.
pub data Opening : Type 0 where
  registry_opened : Registry → Opening
  refused : Option Error → Opening

abbrev pub registry_on : Answer × Connection → Opening
registry_on (success, conn) =
    registry_opened
      (record { conn = conn; attached = false; transacting = false; can_write = false })
registry_on (threw error, conn) = refused (some error)

unfoldable pub reg_open : Bool → Bool → Connection → Option Opening
unfolding init_db
reg_open allocated opens conn =
    let init = init_db conn >>= (λ ran. some (registry_on ran)) in
    if allocated
    then (if opens then init else some (refused (some sqlite_error)))
    else some (refused none)

-- The loop of `reg_vacuum`, by the status of its last round.
abbrev pub vacuumed : Status × Connection → Option (Bool × Connection)
vacuumed (ok, conn) = some (true, conn)
vacuumed (status, conn) = some (false, conn)

abbrev pub vacuum_on : Answer × Connection → Option (Bool × Connection)
vacuum_on (threw error, conn) = some (false, conn)
vacuum_on (success, conn) = do
  (prepare, conn₁) ← ask (prepared vacuum) conn
  elim prepare [
    | ok ↦ ask_until_free (executed vacuum) conn₁ >>= vacuumed
    | _ ↦ some (false, conn₁)
  ]

unfoldable pub reg_vacuum : Bool → Connection → Option (Bool × Connection)
unfolding init_db ask retry
reg_vacuum opens conn = if opens then init_db conn >>= vacuum_on else some (false, conn)
