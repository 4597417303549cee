-- ===== src/Trace/Dispatch.antt =====
-- `TracelibCmd` of src/pextlib1.0/tracelib.c, which calls the subcommands.
pub mod Closed
use mac_ports_fork.CString.{Bytes}
use mac_ports_fork.Prelude.{
  ◌>>=◌, same_result, ℕ, suc, ◌≡◌, ◌≢◌, refl, ap, List, [], ◌∷◌, Option, none, some, Bool, true,
  false, if◌then◌else◌, ◌==◌, ◌||◌, not, length,
}
use mac_ports_fork.Trace.Loop.{Event, run_cmd}
use mac_ports_fork.Trace.Messages.{Effect}
use mac_ports_fork.Trace.Server.{
  Settings, Tracelib, set_name, set_sandbox, set_deps, fence, open_socket, clean, close_socket,
  third,
}

-- `EOptions`.
pub data TraceOption : Type 0 where
  k_set_name k_open_socket k_run k_clean k_set_sandbox k_close_socket k_set_deps k_enable_fence :
      TraceOption

-- What the environment of a call gives: `Tcl_GetIndexFromObj`, whether the socket is made and is
-- bound and listens, and the events of a run.
pub record World : Type 0 where
  pub index : Bytes → Option TraceOption
  pub made : Bool
  pub bound : Bool
  pub events : List Event

abbrev pub Commanded : Type 0
Commanded = Option (Bool × Tracelib × List Effect)

abbrev pub quiet : Bool × Tracelib → Commanded
quiet (result, tl) = some (result, tl, [])

module _ (settings : Settings) (file_registered : Bytes → Bytes) (world : World) where
  -- The `switch`.
  unfoldable pub run_option : TraceOption → List Bytes → Tracelib → Commanded
  unfolding set_name set_sandbox set_deps fence open_socket clean close_socket run_cmd
  run_option k_set_name objv tl = quiet (set_name objv tl)
  run_option k_open_socket objv tl = quiet (open_socket world.made world.bound tl)
  run_option k_run objv tl =
      run_cmd settings file_registered world.events [] tl >>= λ (tl', effects).
      some (true, tl', effects)
  run_option k_clean objv tl = quiet (clean tl)
  run_option k_set_sandbox objv tl = quiet (set_sandbox objv tl)
  run_option k_close_socket objv tl = quiet (close_socket tl)
  run_option k_set_deps objv tl = quiet (set_deps objv tl)
  run_option k_enable_fence objv tl = quiet (fence tl)

  unfoldable pub tracelib_cmd : List Bytes → Tracelib → Commanded
  unfolding run_option
  tracelib_cmd [] tl = some (false, tl, [])
  tracelib_cmd (w ∷ []) tl = some (false, tl, [])
  tracelib_cmd (w ∷ word ∷ args) tl = elim (world.index word) [
    | none ↦ some (false, tl, [])
    | some o ↦ run_option o (w ∷ word ∷ args) tl
  ]
