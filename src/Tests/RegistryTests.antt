-- ===== src/Tests/RegistryTests.antt =====
-- The theorems at concrete inputs for src/cregistry/registry.c and src/cregistry/sql.c.
use mac_ports_fork.Collation.{round_before, sql_version}
use mac_ports_fork.CString.{Bytes}
use mac_ports_fork.Prelude.{Bool, ◌≡◌, refl, [], ◌∷◌, none, some, true, false}
use mac_ports_fork.Registry.Connection.{
  ok, row, done, failed, busy, Log, rollback, select_version, add_binary, index_file_binary,
  update_version, vacuum, begin, begin_immediate, commit, executed, ran, prepared, Connection,
}
use mac_ports_fork.Registry.Open.{registry_opened, reg_open, reg_vacuum}
use mac_ports_fork.Registry.Schema.{is_old, update_db, do_queries}
use mac_ports_fork.Registry.Schema.Queries.{Progress, do_queries-Progress}
use mac_ports_fork.Registry.Sessions.{
  Kept, start_read, start_write, end_commit, end_rollback, run_all,
}
use mac_ports_fork.Registry.Sessions.InStep.{InStep, run_all-InStep}
use mac_ports_fork.Registry.Sessions.Waits.{locked, waited, reg_commit-waits}
use mac_ports_fork.Vercomp.{isalnum, skip_others, compare_digits, segment}
use mac_ports_fork.Registry.Transactions.{
  misuse, sqlite_error, success, threw, Registry, reg_commit, reg_rollback, reg_start_read,
  reg_start_write,
}

abbrev attached_registry : Registry
attached_registry = record {
  conn = record { outcomes = ok ∷ busy ∷ ok ∷ []; log = [] };
  attached = true;
  transacting = false;
  can_write = false;
}

-- A write transaction, whose commit meets a lock once.
abbrev ended_registry : Registry
ended_registry = record attached_registry {
  conn = record {
    outcomes = [];
    log = (executed commit, ok) ∷ (executed commit, busy) ∷ (executed begin_immediate, ok) ∷ [];
  };
}

written : run_all (start_write ∷ end_commit ∷ []) attached_registry ≡ some ended_registry
unfolding reg_start_write reg_commit
written = refl

attached-Kept : Kept attached_registry
attached-Kept = (tt, refl, λ e. e)

-- SQLite rolls the transaction back on its own behind the commit that meets the lock.
abbrev rolled_at_lock : Log → Bool
rolled_at_lock ((executed commit, busy) ∷ log) = true
rolled_at_lock _ = false

run_all-InStep_example : Kept ended_registry × InStep rolled_at_lock ended_registry
run_all-InStep_example =
    run_all-InStep rolled_at_lock (start_write ∷ end_commit ∷ []) attached_registry ended_registry
      attached-Kept written

-- The commit fails, and SQLite has rolled back: the flag stays, and neither end takes it away.
abbrev lost_registry : Registry
lost_registry = record attached_registry {
  conn = record {
    outcomes = [];
    log =
        (executed rollback, failed)
        ∷ (executed commit, failed)
        ∷ (executed begin_immediate, ok)
        ∷ [];
  };
  transacting = true;
  can_write = true;
}

stays_flagged :
    run_all (start_write ∷ end_commit ∷ end_rollback ∷ start_read ∷ []) (record attached_registry {
      conn = record { outcomes = ok ∷ failed ∷ failed ∷ []; log = [] };
    })
    ≡ some lost_registry
unfolding reg_start_write reg_start_read reg_commit reg_rollback
stays_flagged = refl

reg_commit-waits_example :
    (reg_commit (locked 2 [] attached_registry)
      ≡ some (threw misuse, locked 2 [] attached_registry))
    × (reg_start_write (locked 2 [] attached_registry)
        ≡ some (
          success,
          record attached_registry {
            conn = waited begin_immediate 2 [] attached_registry;
            transacting = true;
            can_write = true;
          },
        ))
    × (reg_rollback (locked 3 [] attached_registry)
        ≡ some (threw misuse, locked 3 [] attached_registry))
reg_commit-waits_example = reg_commit-waits 2 [] attached_registry

-- The second of two queries fails.
abbrev failing : Connection
failing = record { outcomes = ok ∷ done ∷ ok ∷ failed ∷ []; log = [] }

abbrev failed_at_commit : Connection
failed_at_commit = record {
  outcomes = [];
  log =
      (ran commit, failed) ∷ (prepared commit, ok) ∷ (ran begin, done) ∷ (prepared begin, ok) ∷ [];
}

half_done : do_queries (begin ∷ commit ∷ []) failing ≡ some (threw sqlite_error, failed_at_commit)
unfolding do_queries
half_done = refl

do_queries-Progress_example :
    Progress (begin ∷ commit ∷ []) [] (threw sqlite_error, failed_at_commit)
do_queries-Progress_example =
    do_queries-Progress (begin ∷ commit ∷ []) failing (threw sqlite_error, failed_at_commit)
      half_done tt

-- "1.0".
abbrev old_version : Bytes
old_version = b'1' ∷ b'.' ∷ b'0' ∷ []

-- When all goes well, the upgrade is committed, and the second round looks at no version again: its
-- query gives a row where the first round began a transaction.
upgraded_once :
    update_db (some old_version ∷ none ∷ []) (record {
      outcomes =
          ok ∷ done ∷ ok ∷ row ∷ ok ∷ done ∷ ok ∷ done ∷ ok ∷ done ∷ ok ∷ done ∷ ok ∷ row ∷ [];
      log = [];
    })
    ≡ some (
      success,
      record {
        outcomes = [];
        log =
            (ran select_version, row)
            ∷ (prepared select_version, ok)
            ∷ (ran commit, done)
            ∷ (prepared commit, ok)
            ∷ (ran update_version, done)
            ∷ (prepared update_version, ok)
            ∷ (ran index_file_binary, done)
            ∷ (prepared index_file_binary, ok)
            ∷ (ran add_binary, done)
            ∷ (prepared add_binary, ok)
            ∷ (ran select_version, row)
            ∷ (prepared select_version, ok)
            ∷ (ran begin, done)
            ∷ (prepared begin, ok)
            ∷ [];
      },
    )
unfolding update_db is_old sql_version isalnum round_before skip_others compare_digits segment
upgraded_once = refl

-- VACUUM meets a lock once.
abbrev vacuuming : Connection
vacuuming = record { outcomes = ok ∷ busy ∷ ok ∷ []; log = [] }

abbrev has_vacuumed : Connection
has_vacuumed = record {
  outcomes = [];
  log = (executed vacuum, ok) ∷ (executed vacuum, busy) ∷ (prepared vacuum, ok) ∷ [];
}

vacuumed_once : reg_vacuum true vacuuming ≡ some (true, has_vacuumed)
unfolding reg_vacuum
vacuumed_once = refl

-- A new registry is not attached.
new_registry :
    reg_open true true vacuuming
    ≡ some (
        registry_opened
          (record { conn = vacuuming; attached = false; transacting = false; can_write = false }))
unfolding reg_open
new_registry = refl
