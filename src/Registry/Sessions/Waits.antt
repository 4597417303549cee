-- ===== src/Registry/Sessions/Waits.antt =====
-- How the operations of src/cregistry/registry.c wait for a lock.
use mac_ports_fork.Prelude.{
  ℕ, zero, suc, ◌≡◌, refl, List, ◌∷◌, some, Bool, true, false, if◌then◌else◌,
}
use mac_ports_fork.Registry.Connection.{
  Status, ok, busy, Statement, begin_immediate, commit, rollback, Call, executed, Log, Connection,
  ask, retry,
}
use mac_ports_fork.Registry.Transactions.{
  misuse, sqlite_error, success, threw, Registry, reg_start, reg_start_write, reg_end, reg_commit,
  reg_rollback,
}

-- A lock that is held for so many tries, and the log of those tries.
abbrev pub held : ℕ → Status → List Status → List Status
held zero s later = s ∷ later
held (suc n) s later = busy ∷ held n s later

abbrev pub tries : ℕ → Call → Log → Log
tries zero call log = log
tries (suc n) call log = tries n call ((call, busy) ∷ log)

retry-held :
    (call : Call) (n : ℕ) (later : List Status) (log : Log)
    → retry call (held n ok later) log
      ≡ some (ok, record { outcomes = later; log = (call, ok) ∷ tries n call log })
unfolding retry
retry-held call zero later log = refl
retry-held call (suc n) later log = retry-held call n later ((call, busy) ∷ log)

-- A registry whose database is free after so many tries.
abbrev pub locked : ℕ → List Status → Registry → Registry
locked n later reg = record reg { conn = record { outcomes = held n ok later; log = reg.conn.log } }

-- The connection when the lock has been waited for.
abbrev pub waited : Statement → ℕ → List Status → Registry → Connection
waited q n later reg = record {
  outcomes = later;
  log = (executed q, ok) ∷ tries n (executed q) reg.conn.log;
}

-- The connection behind a single try.
abbrev pub met_lock : ℕ → List Status → Registry → Connection
met_lock n later reg = record {
  outcomes = held n ok later;
  log = (executed rollback, busy) ∷ reg.conn.log;
}

some_if :
    {A : Type 0} (b : Bool) (x y : A) → (if b then some x else some y) ≡ some (if b then x else y)
some_if true x y = refl
some_if false x y = refl

-- If the lock is given back after any number of tries, a write start and a commit wait for it and
-- succeed, with a try each; but a rollback fails at the first try that meets the lock, and the
-- transaction stays open. Each is tried only in the state for it: else the answer is misuse, and
-- nothing changes.
pub reg_commit-waits :
    (n : ℕ) (later : List Status) (reg : Registry)
    → (reg_commit (locked n later reg)
        ≡ some (
            if reg.transacting
            then (
              success,
              record reg {
                conn = waited commit n later reg;
                transacting = false;
                can_write = false;
              },
            )
            else (threw misuse, locked n later reg)))
      × (reg_start_write (locked n later reg)
          ≡ some (
              if reg.transacting then (threw misuse, locked n later reg) else (
                success,
                record reg {
                  conn = waited begin_immediate n later reg;
                  transacting = true;
                  can_write = true;
                },
              )))
      × (reg_rollback (locked (suc n) later reg)
          ≡ some (
              if reg.transacting
              then (threw sqlite_error, record reg { conn = met_lock n later reg })
              else (threw misuse, locked (suc n) later reg)))
unfolding reg_commit reg_rollback reg_end reg_start_write reg_start ask
reg_commit-waits n later reg = (
  rw (retry-held (executed commit) n later reg.conn.log) (some_if reg.transacting _ _),
  rw (retry-held (executed begin_immediate) n later reg.conn.log) (some_if reg.transacting _ _),
  some_if reg.transacting _ _,
)
