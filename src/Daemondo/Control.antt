-- ===== src/Daemondo/Control.antt =====
-- Start, stop and restart of src/programs/daemondo/main.c: `Exec`, `WaitChildDeath`, `Start`,
-- `Stop`, `Restart`. What the system does meanwhile is an argument.
use mac_ports_fork.CString.{Bytes}
use mac_ports_fork.Prelude.{ℕ, Bool, true, false, List, [], ◌∷◌, if◌then◌else◌}
use mac_ports_fork.Prelude.Int.{ℤ, pos}
use mac_ports_fork.Daemondo.PidFile.{
  PidStyle, unknown, none_known, exec, file_auto, file_clean, Options, Daemon, SignalKind, sig_term,
  sig_kill, minus_one, same_pid, is_process, Poll, create_pid_file, destroy_pid_file,
  delete_preexisting_pid_file, wait_for_valid_pid_file, monitor_child, unmonitor_child,
  process_child_death, check_children,
}

-- A round of `WaitChildDeath` in which the child is not dead yet. While there is patience, the run
-- loop reports the deaths of children, by SIGCHLD or by kevent; without, SIGKILL is sent.
pub data WaitRound : Type 0 where
  watches : List ℤ → WaitRound
  loses_patience : WaitRound

unfoldable pub send_signal : SignalKind → ℤ → Daemon → Daemon
send_signal signal pid d = record d { sent = (pid, signal) ∷ d.sent }

unfoldable pub wait_round : Options → ℤ → WaitRound → Daemon → Daemon
unfolding check_children send_signal
wait_round s pid (watches deaths) d = check_children s deaths d
wait_round s pid loses_patience d = send_signal sig_kill pid d

-- The list has the rounds until `wait4` tells that the child is dead or no child.
unfoldable pub wait_child_death : Options → ℤ → List WaitRound → Daemon → Daemon
unfolding wait_round process_child_death
wait_child_death s pid [] d = process_child_death s pid d
wait_child_death s pid (r ∷ rest) d = wait_child_death s pid rest (wait_round s pid r d)

-- What `fork` returns, and the rounds of a wait for the process.
pub record Launch : Type 0 where
  pub forked : ℤ
  pub rounds : List WaitRound

-- `fork` returns -1 or, in the parent, a pid.
unfoldable pub exec_command : Options → List Bytes → Bool → Launch → Daemon → ℤ × Daemon
unfolding wait_child_death
exec_command s [] sync l d = (minus_one, d)
exec_command s ([] ∷ args) sync l d = (minus_one, d)
exec_command s ((c ∷ name) ∷ args) sync l d =
    if same_pid l.forked minus_one
    then (minus_one, d)
    else if sync
    then (pos 0, wait_child_death s l.forked l.rounds d)
    else (l.forked, d)

-- What a start meets: its launch, and the looks at the pid file.
pub record StartRun : Type 0 where
  pub launch : Launch
  pub first_poll : Poll
  pub polls : List Poll

-- `MonitorChild` and, for a pid, `CreatePidFile`.
unfoldable pub track : Options → ℤ → Daemon → ℕ × Daemon
unfolding monitor_child create_pid_file
track s pid d =
    (0, if is_process pid then create_pid_file s (monitor_child pid d) else monitor_child pid d)

-- The pid of a process whose start waits for its pid file.
unfoldable pub track_polled : Options → ℤ × Daemon → ℕ × Daemon
unfolding track
track_polled s (pid, d) = if same_pid pid minus_one then (2, d) else track s pid d

-- How the pid is found, by the style.
unfoldable pub discover : Options → StartRun → PidStyle → ℤ → Daemon → ℕ × Daemon
unfolding track track_polled wait_for_valid_pid_file
discover s run none_known pid d = track s minus_one d
discover s run exec pid d = track s pid d
discover s run file_auto pid d = track_polled s (wait_for_valid_pid_file run.first_poll run.polls d)
discover s run file_clean pid d =
    track_polled s (wait_for_valid_pid_file run.first_poll run.polls d)
discover s run unknown pid d = track s pid d

unfoldable pub after_exec : Options → StartRun → ℤ × Daemon → ℕ × Daemon
unfolding discover
after_exec s run (pid, d) =
    if same_pid pid minus_one then (2, d) else discover s run s.pid_style pid d

abbrev pub is_none_known : PidStyle → Bool
is_none_known none_known = true
is_none_known unknown = false
is_none_known exec = false
is_none_known file_auto = false
is_none_known file_clean = false

-- What a start does with the pid file first.
unfoldable pub make_ready : Options → Daemon → Daemon
unfolding delete_preexisting_pid_file
make_ready s d = if s.has_pid_file then delete_preexisting_pid_file s d else d

-- A start, by its command.
unfoldable pub start_by : Options → StartRun → List Bytes → Daemon → ℕ × Daemon
unfolding after_exec exec_command make_ready
start_by s run [] d = (2, d)
start_by s run (command ∷ args) d =
    after_exec s run
      (exec_command s (command ∷ args) (is_none_known s.pid_style) run.launch (make_ready s d))

unfoldable pub start : Options → StartRun → Daemon → ℕ × Daemon
unfolding start_by
start s run d = start_by s run s.start_args d

-- The end of a stop by a command, which is trusted.
unfoldable pub after_stop : Options → ℤ × Daemon → ℕ × Daemon
unfolding unmonitor_child destroy_pid_file
after_stop s (pid, d) =
    if same_pid pid minus_one then (2, d) else (0, destroy_pid_file s (unmonitor_child d))

unfoldable pub stop_by : Options → Launch → List Bytes → Daemon → ℕ × Daemon
unfolding after_stop exec_command send_signal wait_child_death
stop_by s l [] d =
    if is_process d.running_pid
    then (0, wait_child_death s d.running_pid l.rounds (send_signal sig_term d.running_pid d))
    else (0, d)
stop_by s l (command ∷ args) d = after_stop s (exec_command s (command ∷ args) true l d)

unfoldable pub stop : Options → Launch → Daemon → ℕ × Daemon
unfolding stop_by
stop s l d = stop_by s l s.stop_args d

unfoldable pub after_restart : ℤ × Daemon → ℕ × Daemon
after_restart (pid, d) = if same_pid pid minus_one then (2, d) else (0, d)

-- Without a command, a stop and a start, whose results are not looked at.
unfoldable pub restart_by : Options → Launch → StartRun → List Bytes → Daemon → ℕ × Daemon
unfolding after_restart exec_command stop start
restart_by s l run [] d = (0, (start s run ((stop s l d).1)).1)
restart_by s l run (command ∷ args) d = after_restart (exec_command s (command ∷ args) true l d)

unfoldable pub restart : Options → Launch → StartRun → Daemon → ℕ × Daemon
unfolding restart_by
restart s l run d = restart_by s l run s.restart_args d
