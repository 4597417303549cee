-- ===== src/Registry/Schema.antt =====
-- The schema of the registry: src/cregistry/sql.c.
pub mod Queries
use mac_ports_fork.Collation.{Collated, collated, past_end, out_of_fuel, sql_version}
use mac_ports_fork.CString.{Bytes}
use mac_ports_fork.Prelude.{
  ◌>>=◌, ℕ, zero, suc, List, [], ◌∷◌, Option, none, some, Bool, true, false, length, if◌then◌else◌,
}
use mac_ports_fork.Prelude.Int.{ℤ, pos, negsuc}
use mac_ports_fork.Registry.Connection.{
  Status, ok, busy, row, done, failed, Statement, begin, commit, rollback, select_version,
  create_metadata, insert_version, insert_created, create_ports, index_port_name, index_port_url,
  index_port_state, create_files, index_file_port, index_file_path, index_file_actual,
  index_file_binary, create_dependencies, index_dep_name, add_binary, update_version, Call,
  prepared, ran, executed, Connection, Asked, ask, retry, ask_until_free,
}
use mac_ports_fork.Registry.Transactions.{Error, sqlite_error, invalid, Answer, success, threw}

abbrev pub Ran : Type 0
Ran = Option (Answer × Connection)

-- Behind the loops: SQLITE_OK, SQLITE_DONE and SQLITE_ROW are fine.
abbrev pub is_fine : Status → Bool
is_fine ok = true
is_fine row = true
is_fine done = true
is_fine _ = false

abbrev pub judged : Status × Connection → Ran
judged (s, conn) = some (if is_fine s then success else threw sqlite_error, conn)

-- A step that gave a row or is done; SQLITE_OK is no result of a step.
abbrev pub stepped : Status → Bool
stepped row = true
stepped done = true
stepped _ = false

unfoldable pub do_queries : List Statement → Connection → Ran
unfolding ask retry
do_queries [] conn = some (success, conn)
do_queries (query ∷ queries) conn = do
  (prepare, conn₁) ← ask (prepared query) conn
  elim prepare [
    | ok ↦ ask_until_free (ran query) conn₁ >>= λ (step, conn₂).
        let next = do_queries queries conn₂ in if stepped step then next else judged (step, conn₂)
    | other ↦ judged (other, conn₁)
  ]

abbrev pub table_queries : List Statement
table_queries =
    begin ∷ create_metadata ∷ insert_version ∷ insert_created ∷ create_ports ∷ index_port_name
    ∷ index_port_url ∷ index_port_state ∷ create_files ∷ index_file_port ∷ index_file_path
    ∷ index_file_actual ∷ index_file_binary ∷ create_dependencies ∷ index_dep_name ∷ commit ∷ []

unfoldable pub create_tables : Connection → Ran
unfolding do_queries
create_tables conn = do_queries table_queries conn

-- For a SQLite of 3.2.0 or later.
abbrev pub version_1_1_queries : List Statement
version_1_1_queries = add_binary ∷ index_file_binary ∷ update_version ∷ commit ∷ []

abbrev pub version_1_1 : Bytes
version_1_1 = b'1' ∷ b'.' ∷ b'1' ∷ []

-- `rollback_db`, whose errors are ignored.
unfoldable pub rollback_db : Connection → Option Connection
unfolding ask
rollback_db conn = do
  (prepare, conn₁) ← ask (prepared rollback) conn
  elim prepare [ ok ↦ ask (ran rollback) conn₁ >>= (λ (step, conn₂). some conn₂) | _ ↦ some conn₁ ]

abbrev pub roll_back_and_throw : Error → Connection → Ran
roll_back_and_throw error conn = rollback_db conn >>= λ conn'. some (threw error, conn')

-- Whether the version is older than 1.1; `none` if the comparison does not come back.
unfoldable pub is_old : Bytes → Option Bool
is_old version = elim (sql_version version version_1_1 0) [
  | collated (pos n) ↦ some false
  | collated (negsuc n) ↦ some true
  | past_end ↦ none
  | out_of_fuel ↦ none
]

-- How a round of `update_db` ends: with an answer, or in another round.
pub data Round : Type 0 where
  leaves : Answer → Round
  again : Round

abbrev pub Rounded : Type 0
Rounded = Option (Round × Connection)

abbrev pub leave : Ran → Rounded
leave none = none
leave (some (answer, conn)) = some (leaves answer, conn)

-- The upgrade of the schema, in the transaction that is open.
abbrev pub upgrade : Connection → Rounded
upgrade conn = do_queries version_1_1_queries conn >>= λ (answer, conn'). elim answer [
  | success ↦ some (again, conn')
  | threw error ↦ leave (roll_back_and_throw error conn')
]

-- With the row of the version, which may be NULL.
abbrev pub with_version : Option Bytes → Connection → Rounded
with_version none conn = leave (roll_back_and_throw invalid conn)
with_version (some version) conn = do
  old ← is_old version
  if old then upgrade conn else leave (ask (executed commit) conn >>= judged)

abbrev pub query_version : Option Bytes → Connection → Rounded
query_version text conn = do
  (prepare, conn₁) ← ask (prepared select_version) conn
  elim prepare [
    | ok ↦ ask (ran select_version) conn₁ >>= λ (step, conn₂). elim step [
      | done ↦ leave (roll_back_and_throw invalid conn₂)
      | row ↦ with_version text conn₂
      | other ↦ leave (judged (other, conn₂))
    ]
    | other ↦ leave (judged (other, conn₁))
  ]

-- A round, with the query that it begins with.
unfoldable pub update_round : Statement → Option Bytes → Connection → Rounded
unfolding ask do_queries rollback_db
update_round query text conn = do
  (prepare, conn₁) ← ask (prepared query) conn
  elim prepare [
    | ok ↦ ask (ran query) conn₁ >>= λ (step, conn₂). elim step [
      | done ↦ query_version text conn₂
      | other ↦ leave (judged (other, conn₂))
    ]
    | other ↦ leave (judged (other, conn₁))
  ]

-- The rounds: the first begins with "BEGIN", all others with the query of the version, since the
-- variable is not set again. `texts` are the versions that are read. On fuel, one for each round.
unfoldable pub update_rounds : ℕ → Statement → List (Option Bytes) → Connection → Ran
unfolding update_round
update_rounds zero query texts conn = none
update_rounds (suc fuel) query [] conn = none
update_rounds (suc fuel) query (text ∷ texts) conn = do
  (round, conn') ← update_round query text conn
  let next = update_rounds fuel select_version texts conn'
  elim round [ leaves answer ↦ some (answer, conn') | again ↦ next ]

unfoldable pub update_db : List (Option Bytes) → Connection → Ran
unfolding update_rounds
update_db texts conn = update_rounds (length texts) begin texts conn
