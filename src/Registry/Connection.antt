-- ===== src/Registry/Connection.antt =====
-- A connection to SQLite, as src/cregistry/registry.c and src/cregistry/sql.c use it: the statements
-- that were prepared and run, and the outcomes that SQLite has for those to come. A model's result is
-- `none` where the outcomes do not reach, as in a wait for a lock that is never given back.
use mac_ports_fork.Prelude.{List, [], ◌∷◌, Option, none, some}

-- The result codes: SQLITE_OK, SQLITE_BUSY, SQLITE_ROW, SQLITE_DONE, and all others.
pub data Status : Type 0 where
  ok busy row done failed : Status

-- The statements that the sources write out; those of the schema by what they create or change.
pub data Statement : Type 0 where
  begin begin_immediate commit rollback : Statement
  attach_database detach_database select_version : Statement
  create_metadata insert_version insert_created : Statement
  create_ports index_port_name index_port_url index_port_state : Statement
  create_files index_file_port index_file_path index_file_actual index_file_binary : Statement
  create_dependencies index_dep_name : Statement
  add_binary update_version vacuum : Statement

-- `sqlite3_prepare_v2`; `sqlite3_step`; and `sqlite3_exec`, or a step with its `sqlite3_reset`.
pub data Call : Type 0 where
  prepared ran executed : Statement → Call

-- The calls and their outcomes, the last one first.
abbrev pub Log : Type 0
Log = List (Call × Status)

pub record Connection : Type 0 where
  pub outcomes : List Status
  pub log : Log

abbrev pub Asked : Type 0
Asked = Option (Status × Connection)

-- The next outcome.
unfoldable pub ask : Call → Connection → Asked
ask call conn = elim conn.outcomes [
  | [] ↦ none
  | s ∷ later ↦ some (s, record { outcomes = later; log = (call, s) ∷ conn.log })
]

-- `do ... while (r == SQLITE_BUSY)`.
unfoldable pub retry : Call → List Status → Log → Asked
retry call [] log = none
retry call (s ∷ later) log =
    let again = retry call later ((call, s) ∷ log) in
    elim s [
      | busy ↦ again
      | other ↦ some (other, record { outcomes = later; log = (call, other) ∷ log })
    ]

abbrev pub ask_until_free : Call → Connection → Asked
ask_until_free call conn = retry call conn.outcomes conn.log
