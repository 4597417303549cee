-- ===== src/Daemondo/PidFile.antt =====
-- The state of src/programs/daemondo/main.c and its pid file: `CreatePidFile`, `DestroyPidFile`,
-- `CheckForValidPidFile`, `DeletePreexistingPidFile`, `WaitForValidPidFile`, and the tracking of the
-- child, `MonitorChild`, `UnmonitorChild`, `MonitoringChild`, `ProcessChildDeath`. The messages are
-- left out, and so is `CFRunLoopStop`, after which `MainLoop` looks at its condition again.
use mac_ports_fork.CString.{Bytes}
use mac_ports_fork.Prelude.{ℕ, Bool, false, not, ◌&&◌, List, [], ◌∷◌, Option, ◌==◌, if◌then◌else◌}
use mac_ports_fork.Prelude.Int.{ℤ, pos, negsuc}

pub data PidStyle : Type 0 where
  unknown none_known exec file_auto file_clean : PidStyle

-- What `pidFile` has: nothing, something that `fscanf` reads no number from, or a number.
pub data OnDisk : Type 0 where
  absent unreadable : OnDisk
  holds : ℤ → OnDisk

-- The settings of the command line; `has_pid_file` tells whether pidFile is set. `removable` and
-- `writable` tell whether `unlink` and `fopen (…, "w")` work on it.
pub record Options : Type 0 where
  pub start_args : List Bytes
  pub stop_args : List Bytes
  pub restart_args : List Bytes
  pub pid_style : PidStyle
  pub has_pid_file : Bool
  pub removable : Bool
  pub writable : Bool
  pub restart_on_wakeup : Bool
  pub hysteresis : ℕ

pub data SignalKind : Type 0 where
  sig_term sig_kill : SignalKind

-- The globals, the pid file, the timers that the run loop has, and the signals sent, newest first.
-- A pid_t is an integer: 0 while stopped, -1 where the pid is not known.
pub record Daemon : Type 0 where
  pub running_pid : ℤ
  pub terminating : Bool
  pub disk : OnDisk
  pub restart_timer : Option ℕ
  pub timers : List ℕ
  pub sent : List (ℤ × SignalKind)

abbrev pub minus_one : ℤ
minus_one = negsuc 0

abbrev pub same_pid : ℤ → ℤ → Bool
same_pid (pos a) (pos b) = a == b
same_pid (pos a) (negsuc b) = false
same_pid (negsuc a) (pos b) = false
same_pid (negsuc a) (negsuc b) = a == b

-- `pid != 0 && pid != -1`.
abbrev pub is_process : ℤ → Bool
is_process p = not (same_pid p (pos 0)) && not (same_pid p minus_one)

unfoldable pub create_by : Options → PidStyle → Daemon → Daemon
create_by s unknown d = d
create_by s none_known d = d
create_by s exec d = if s.writable then record d { disk = holds d.running_pid } else d
create_by s file_auto d = d
create_by s file_clean d = d

unfoldable pub create_pid_file : Options → Daemon → Daemon
unfolding create_by
create_pid_file s d = if s.has_pid_file then create_by s s.pid_style d else d

unfoldable pub remove_pid_file : Options → Daemon → Daemon
remove_pid_file s d = if s.removable then record d { disk = absent } else d

unfoldable pub destroy_by : Options → PidStyle → Daemon → Daemon
unfolding remove_pid_file
destroy_by s unknown d = d
destroy_by s none_known d = d
destroy_by s exec d = remove_pid_file s d
destroy_by s file_auto d = d
destroy_by s file_clean d = remove_pid_file s d

unfoldable pub destroy_pid_file : Options → Daemon → Daemon
unfolding destroy_by
destroy_pid_file s d = if s.has_pid_file then destroy_by s s.pid_style d else d

-- The number that the file has; -1 where it has none, or has 0.
unfoldable pub read_pid : OnDisk → ℤ
read_pid absent = minus_one
read_pid unreadable = minus_one
read_pid (holds p) = if same_pid p (pos 0) then minus_one else p

-- `alive` is `kill (pid, 0) == 0`.
unfoldable pub check_for_valid_pid_file : OnDisk → Bool → ℤ
unfolding read_pid
check_for_valid_pid_file content alive =
    let pid = read_pid content in
    if not (same_pid pid minus_one) && not alive then minus_one else pid

unfoldable pub delete_preexisting_pid_file : Options → Daemon → Daemon
unfolding read_pid remove_pid_file
delete_preexisting_pid_file s d =
    if same_pid (read_pid d.disk) minus_one then d else remove_pid_file s d

-- A look at the pid file: what the child has put there by then, and whether that process is alive.
pub record Poll : Type 0 where
  pub content : OnDisk
  pub alive : Bool

-- The looks until there is a valid pid or the patience ends: the first, and those that follow while
-- there is patience left.
unfoldable pub wait_for_valid_pid_file : Poll → List Poll → Daemon → ℤ × Daemon
unfolding check_for_valid_pid_file
wait_for_valid_pid_file p [] d =
    (check_for_valid_pid_file p.content p.alive, record d { disk = p.content })
wait_for_valid_pid_file p (q ∷ r) d =
    let pid = check_for_valid_pid_file p.content p.alive in
    let rest = wait_for_valid_pid_file q r d in
    if same_pid pid minus_one then rest else (pid, record d { disk = p.content })

-- `kevent` only reports the death of the process later.
unfoldable pub monitor_child : ℤ → Daemon → Daemon
monitor_child pid d = record d { running_pid = pid }

unfoldable pub unmonitor_child : Daemon → Daemon
unmonitor_child d = record d { running_pid = pos 0 }

unfoldable pub monitoring_child : Daemon → Bool
monitoring_child d = not (same_pid d.running_pid (pos 0))

unfoldable pub process_child_death : Options → ℤ → Daemon → Daemon
unfolding unmonitor_child destroy_pid_file
process_child_death s pid d =
    if is_process d.running_pid && same_pid pid d.running_pid
    then destroy_pid_file s (unmonitor_child d)
    else d

-- `CheckChildren`, by the pids that `wait4` reports until it has no more.
unfoldable pub check_children : Options → List ℤ → Daemon → Daemon
unfolding process_child_death
check_children s [] d = d
check_children s (p ∷ r) d = check_children s r (process_child_death s p d)
