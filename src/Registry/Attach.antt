-- ===== src/Registry/Attach.antt =====
-- `reg_attach`, `reg_detach` and `reg_close` of src/cregistry/registry.c.
use mac_ports_fork.CString.{Bytes}
use mac_ports_fork.Prelude.{◌>>=◌, List, Option, some, Bool, true, false, ◌&&◌, ◌||◌, if◌then◌else◌}
use mac_ports_fork.Registry.Connection.{
  Status, ok, attach_database, detach_database, prepared, executed, Connection, ask, retry,
  ask_until_free,
}
use mac_ports_fork.Registry.Schema.{create_tables, update_db}
use mac_ports_fork.Registry.Transactions.{
  misuse, sqlite_error, cannot_init, Answer, success, threw, Registry, Done,
}

-- What `stat` says of the registry's file or, if there is none, of its directory; whose it is, and
-- who may write to it.
pub record Place : Type 0 where
  pub exists : Bool
  pub not_there : Bool
  pub directory_exists : Bool
  pub is_owner : Bool
  pub is_group : Bool
  pub is_root : Bool
  pub user_writes : Bool
  pub group_writes : Bool
  pub others_write : Bool

unfoldable pub can_write_at : Place → Bool
can_write_at place =
    (place.exists || (place.not_there && place.directory_exists))
    && (if place.is_owner
        then place.user_writes
        else if place.is_group
        then place.group_writes
        else (place.others_write || place.is_root))

abbrev pub update_attached : List (Option Bytes) → Registry → Done
update_attached texts reg =
    update_db texts reg.conn >>= λ (answer, conn). some (answer, record reg { conn = conn })

-- The tables are made for a new database, then an old schema is brought up to date. A failure of
-- that leaves the registry attached.
abbrev pub set_up : Bool → List (Option Bytes) → Registry → Done
set_up initialized texts reg =
    (if initialized then some (success, reg.conn) else create_tables reg.conn) >>= λ (answer, conn).
    elim answer [
      | success ↦ update_attached texts (record reg { conn = conn; attached = true })
      | threw error ↦ some (threw error, record reg { conn = conn })
    ]

abbrev pub attach_with : Bool → List (Option Bytes) → Registry → Done
attach_with initialized texts reg = do
  (prepare, conn₁) ← ask_until_free (prepared attach_database) reg.conn
  elim prepare [
    | ok ↦ ask_until_free (executed attach_database) conn₁ >>= λ (step, conn₂).
        let reg₂ = record reg { conn = conn₂ } in
        elim step [ ok ↦ set_up initialized texts reg₂ | _ ↦ some (threw sqlite_error, reg₂) ]
    | _ ↦ some (threw sqlite_error, record reg { conn = conn₁ })
  ]

unfoldable pub reg_attach : Place → List (Option Bytes) → Registry → Done
unfolding can_write_at retry create_tables update_db
reg_attach place texts reg =
    if reg.attached
    then some (threw misuse, reg)
    else if place.exists || can_write_at place
    then attach_with place.exists texts reg
    else some (threw cannot_init, reg)

abbrev pub detached : Registry → Status × Connection → Done
detached reg (ok, conn) = some (success, record reg { conn = conn; attached = false })
detached reg (s, conn) = some (threw sqlite_error, record reg { conn = conn })

abbrev pub detach_prepared : Registry → Status × Connection → Done
detach_prepared reg (ok, conn) = ask_until_free (executed detach_database) conn >>= detached reg
detach_prepared reg (s, conn) = some (threw sqlite_error, record reg { conn = conn })

unfoldable pub reg_detach : Registry → Done
unfolding ask retry
reg_detach reg =
    if reg.attached
    then ask (prepared detach_database) reg.conn >>= detach_prepared reg
    else some (threw misuse, reg)

-- With whether `sqlite3_close` works; the registry is freed on success.
abbrev pub close_database : Bool → Answer × Registry → Done
close_database closes (success, reg) = some (if closes then success else threw sqlite_error, reg)
close_database closes (threw error, reg) = some (threw error, reg)

unfoldable pub reg_close : Bool → Registry → Done
unfolding reg_detach
reg_close closes reg =
    if reg.attached
    then reg_detach reg >>= close_database closes
    else close_database closes (success, reg)
