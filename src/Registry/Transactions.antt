-- ===== src/Registry/Transactions.antt =====
-- The transactions of src/cregistry/registry.c: `reg_start`, `reg_end` and what calls them.
use mac_ports_fork.Prelude.{Option, none, some, Bool, true, false, if◌then◌else◌}
use mac_ports_fork.Registry.Connection.{
  ok, Statement, begin, begin_immediate, commit, rollback, executed, Connection, Asked, ask, retry,
  ask_until_free,
}

-- The error codes.
pub data Error : Type 0 where
  misuse sqlite_error invalid cannot_init : Error

-- Success, or the error that is thrown.
pub data Answer : Type 0 where
  success : Answer
  threw : Error → Answer

-- `reg_registry`, with its status word as three flags.
pub record Registry : Type 0 where
  pub conn : Connection
  pub attached : Bool
  pub transacting : Bool
  pub can_write : Bool

abbrev pub Done : Type 0
Done = Option (Answer × Registry)

-- What `reg_start` and `reg_end` make of a status.
abbrev pub on_ok : (Connection → Registry) → Registry → Asked → Done
on_ok f reg none = none
on_ok f reg (some (ok, conn)) = some (success, f conn)
on_ok f reg (some (s, conn)) = some (threw sqlite_error, record reg { conn = conn })

unfoldable pub reg_start : Statement → (Connection → Registry) → Registry → Done
unfolding retry
reg_start query f reg =
    if reg.transacting
    then some (threw misuse, reg)
    else on_ok f reg (ask_until_free (executed query) reg.conn)

unfoldable pub reg_start_read : Registry → Done
unfolding reg_start
reg_start_read reg = reg_start begin (λ conn. record reg { conn = conn; transacting = true }) reg

unfoldable pub reg_start_write : Registry → Done
unfolding reg_start
reg_start_write reg =
    reg_start begin_immediate
      (λ conn. record reg { conn = conn; transacting = true; can_write = true }) reg

-- A rollback is tried once, a commit until the database is free.
unfoldable pub reg_end : Statement → Bool → Registry → Done
unfolding retry ask
reg_end query is_rollback reg =
    let asked =
      if is_rollback
      then ask (executed query) reg.conn
      else ask_until_free (executed query) reg.conn in
    if reg.transacting
    then on_ok (λ conn. record reg { conn = conn; transacting = false; can_write = false }) reg
        asked
    else some (threw misuse, reg)

unfoldable pub reg_commit : Registry → Done
unfolding reg_end
reg_commit reg = reg_end commit false reg

unfoldable pub reg_rollback : Registry → Done
unfolding reg_end
reg_rollback reg = reg_end rollback true reg
