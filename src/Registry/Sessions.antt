-- ===== src/Registry/Sessions.antt =====
-- What is said of runs of the operations of src/cregistry/registry.c on an attached registry: its flags and the
-- transactions of SQLite.
pub mod Grown
pub mod InStep
pub mod Kept
pub mod Waits
use mac_ports_fork.Prelude.{
  ◌>>=◌, ℕ, zero, suc, ◌≡◌, refl, sym, ap, subst, ◌∙◌, List, [], ◌∷◌, ◌++◌, Option, none, some,
  Bool, true, false, Bool-cases, inl, inr, if◌then◌else◌,
}
use mac_ports_fork.Registry.Attach.{detached, detach_prepared, reg_detach}
use mac_ports_fork.Registry.Connection.{
  Status, ok, busy, row, done, failed, Statement, begin, begin_immediate, commit, rollback,
  detach_database, Call, prepared, ran, executed, Log, Connection, ask, retry, ask_until_free,
}
use mac_ports_fork.Registry.Transactions.{
  Error, misuse, sqlite_error, Answer, success, threw, Registry, Done, on_ok, reg_start,
  reg_start_read, reg_start_write, reg_end, reg_commit, reg_rollback,
}
use mathlib.Core.Option.{some-injective}

-- Whether a transaction is open behind a statement that has worked.
abbrev pub effect : Statement → Bool → Bool
effect begin b = true
effect begin_immediate b = true
effect commit b = false
effect rollback b = false
effect _ b = b

-- What a statement that has not worked leaves as it is.
abbrev pub after : Status → Statement → Bool → Bool
after ok q b = effect q b
after _ q b = b

-- A prepared statement has worked when its step is done.
abbrev pub after_step : Status → Statement → Bool → Bool
after_step done q b = effect q b
after_step _ q b = b

-- Whether one was begun by a statement that has worked, and not ended by one since: what a client
-- can know. SQLite may have rolled it back on its own by then.
abbrev pub begun : Log → Bool
begun [] = false
begun ((executed q, s) ∷ log) = after s q (begun log)
begun ((ran q, s) ∷ log) = after_step s q (begun log)
begun ((prepared q, s) ∷ log) = begun log

-- A transaction is begun where none has been, and ended where one has.
abbrev pub Fits : Statement → Bool → Type 0
Fits begin b = b ≡ false
Fits begin_immediate b = b ≡ false
Fits commit b = b ≡ true
Fits rollback b = b ≡ true
Fits _ b = Unit

abbrev pub IsNested : Log → Type 0
IsNested [] = Unit
IsNested ((executed q, s) ∷ log) = Fits q (begun log) × IsNested log
IsNested ((ran q, s) ∷ log) = Fits q (begun log) × IsNested log
IsNested ((prepared q, s) ∷ log) = IsNested log

-- The flags say what the statements that have worked say, and none was sent out of place.
abbrev pub Kept : Registry → Type 0
Kept reg =
    IsNested reg.conn.log
    × (begun reg.conn.log ≡ reg.transacting)
    × (reg.can_write ≡ true → reg.transacting ≡ true)

pub data Operation : Type 0 where
  start_read start_write end_commit end_rollback detach : Operation

abbrev pub run : Operation → Registry → Done
run start_read reg = reg_start_read reg
run start_write reg = reg_start_write reg
run end_commit reg = reg_commit reg
run end_rollback reg = reg_rollback reg
run detach reg = reg_detach reg

abbrev pub run_all : List Operation → Registry → Option Registry
run_all [] reg = some reg
run_all (o ∷ os) reg = run o reg >>= λ (answer, reg'). run_all os reg'
