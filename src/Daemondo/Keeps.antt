-- ===== src/Daemondo/Keeps.antt =====
-- What starting and stopping in src/programs/daemondo/main.c leaves alone: every property of the
-- globals that does not look at the running pid, the pid file and the signals.
use mac_ports_fork.CString.{Bytes}
use mac_ports_fork.Prelude.{Bool, true, false, List, [], ◌∷◌, ◌&&◌, if◌then◌else◌}
use mac_ports_fork.Prelude.Int.{ℤ}
use mac_ports_fork.Daemondo.PidFile.{
  PidStyle, unknown, none_known, exec, file_auto, file_clean, OnDisk, Options, Daemon, SignalKind,
  minus_one, same_pid, is_process, Poll, create_pid_file, create_by, remove_pid_file,
  destroy_pid_file, destroy_by, read_pid, delete_preexisting_pid_file, check_for_valid_pid_file,
  wait_for_valid_pid_file, monitor_child, unmonitor_child, process_child_death, check_children,
}
use mac_ports_fork.Daemondo.Control.{
  WaitRound, watches, loses_patience, send_signal, wait_round, wait_child_death, Launch,
  exec_command, StartRun, track, track_polled, discover, after_exec, is_none_known, make_ready,
  start, start_by, stop_by, restart_by, after_stop, stop, after_restart, restart,
}

-- Both branches of a test have a property.
pub if-keeps {ℓ κ} :
    {A : Type ℓ} (P : A → Type κ) (b : Bool) (x y : A) → P x → P y → P (if b then x else y)
if-keeps P true x y p q = p
if-keeps P false x y p q = q

module _ (P : Daemon → Type 0)
    (on_pid : (d : Daemon) (p : ℤ) → P d → P (record d { running_pid = p }))
    (on_disk : (d : Daemon) (f : OnDisk) → P d → P (record d { disk = f })) (s : Options) where
  abbrev After : {A : Type 0} → A × Daemon → Type 0
  After r = P r.1

  remove_keeps : (d : Daemon) → P d → P (remove_pid_file s d)
  unfolding remove_pid_file
  remove_keeps d p = if-keeps P s.removable _ _ (on_disk d _ p) p

  destroy_by_keeps : (style : PidStyle) (d : Daemon) → P d → P (destroy_by s style d)
  unfolding destroy_by
  destroy_by_keeps unknown d p = p
  destroy_by_keeps none_known d p = p
  destroy_by_keeps exec d p = remove_keeps d p
  destroy_by_keeps file_auto d p = p
  destroy_by_keeps file_clean d p = remove_keeps d p

  destroy_keeps : (d : Daemon) → P d → P (destroy_pid_file s d)
  unfolding destroy_pid_file
  destroy_keeps d p = if-keeps P s.has_pid_file _ _ (destroy_by_keeps s.pid_style d p) p

  create_by_keeps : (style : PidStyle) (d : Daemon) → P d → P (create_by s style d)
  unfolding create_by
  create_by_keeps unknown d p = p
  create_by_keeps none_known d p = p
  create_by_keeps exec d p = if-keeps P s.writable _ _ (on_disk d _ p) p
  create_by_keeps file_auto d p = p
  create_by_keeps file_clean d p = p

  create_keeps : (d : Daemon) → P d → P (create_pid_file s d)
  unfolding create_pid_file
  create_keeps d p = if-keeps P s.has_pid_file _ _ (create_by_keeps s.pid_style d p) p

  pub death_keeps : (pid : ℤ) (d : Daemon) → P d → P (process_child_death s pid d)
  unfolding process_child_death unmonitor_child
  death_keeps pid d p =
      if-keeps P (is_process d.running_pid && same_pid pid d.running_pid) _ _
        (destroy_keeps _ (on_pid d _ p)) p

  pub children_keep : (l : List ℤ) (d : Daemon) → P d → P (check_children s l d)
  unfolding check_children
  children_keep [] d p = p
  children_keep (x ∷ l) d p = children_keep l _ (death_keeps x d p)

  module _
      (on_sent : (d : Daemon) (l : List (ℤ × SignalKind)) → P d → P (record d { sent = l })) where
    wait_keeps : (pid : ℤ) (l : List WaitRound) (d : Daemon) → P d → P (wait_child_death s pid l d)
    unfolding wait_child_death wait_round send_signal
    wait_keeps pid [] d p = death_keeps pid d p
    wait_keeps pid (watches deaths ∷ l) d p = wait_keeps pid l _ (children_keep deaths d p)
    wait_keeps pid (loses_patience ∷ l) d p = wait_keeps pid l _ (on_sent d _ p)

    exec_keeps :
        (args : List Bytes) (sync : Bool) (l : Launch) (d : Daemon)
        → P d
        → After (exec_command s args sync l d)
    unfolding exec_command
    exec_keeps [] sync l d p = p
    exec_keeps ([] ∷ args) sync l d p = p
    exec_keeps ((c ∷ name) ∷ args) sync l d p =
        if-keeps After (same_pid l.forked minus_one) _ _ p
          (if-keeps After sync _ _ (wait_keeps l.forked l.rounds d p) p)

    poll_keeps :
        (q : Poll) (l : List Poll) (d : Daemon) → P d → After (wait_for_valid_pid_file q l d)
    unfolding wait_for_valid_pid_file
    poll_keeps q [] d p = on_disk d q.content p
    poll_keeps q (r ∷ l) d p =
        if-keeps After (same_pid (check_for_valid_pid_file q.content q.alive) minus_one) _ _
          (poll_keeps r l d p) (on_disk d q.content p)

    track_keeps : (pid : ℤ) (d : Daemon) → P d → After (track s pid d)
    unfolding track monitor_child
    track_keeps pid d p =
        if-keeps P (is_process pid) _ _ (create_keeps _ (on_pid d pid p)) (on_pid d pid p)

    polled_keeps : (r : ℤ × Daemon) → After r → After (track_polled s r)
    unfolding track_polled
    polled_keeps (pid, d) p = if-keeps After (same_pid pid minus_one) _ _ p (track_keeps pid d p)

    discover_keeps :
        (run : StartRun) (style : PidStyle) (pid : ℤ) (d : Daemon)
        → P d
        → After (discover s run style pid d)
    unfolding discover
    discover_keeps run unknown pid d p = track_keeps pid d p
    discover_keeps run none_known pid d p = track_keeps minus_one d p
    discover_keeps run exec pid d p = track_keeps pid d p
    discover_keeps run file_auto pid d p =
        polled_keeps (wait_for_valid_pid_file run.first_poll run.polls d)
          (poll_keeps run.first_poll run.polls d p)
    discover_keeps run file_clean pid d p =
        polled_keeps (wait_for_valid_pid_file run.first_poll run.polls d)
          (poll_keeps run.first_poll run.polls d p)

    after_exec_keeps : (run : StartRun) (r : ℤ × Daemon) → After r → After (after_exec s run r)
    unfolding after_exec
    after_exec_keeps run (pid, d) p =
        if-keeps After (same_pid pid minus_one) _ _ p (discover_keeps run s.pid_style pid d p)

    delete_keeps : (d : Daemon) → P d → P (delete_preexisting_pid_file s d)
    unfolding delete_preexisting_pid_file
    delete_keeps d p = if-keeps P (same_pid (read_pid d.disk) minus_one) _ _ p (remove_keeps d p)

    ready_keeps : (d : Daemon) → P d → P (make_ready s d)
    unfolding make_ready
    ready_keeps d p = if-keeps P s.has_pid_file _ _ (delete_keeps d p) p

    start_by_keeps :
        (run : StartRun) (args : List Bytes) (d : Daemon) → P d → After (start_by s run args d)
    unfolding start_by
    start_by_keeps run [] d p = p
    start_by_keeps run (c ∷ args) d p =
        after_exec_keeps run
          (exec_command s (c ∷ args) (is_none_known s.pid_style) run.launch (make_ready s d))
          (exec_keeps (c ∷ args) (is_none_known s.pid_style) run.launch (make_ready s d)
            (ready_keeps d p))

    start_keeps : (run : StartRun) (d : Daemon) → P d → After (start s run d)
    unfolding start
    start_keeps run d p = start_by_keeps run s.start_args d p

    after_stop_keeps : (r : ℤ × Daemon) → After r → After (after_stop s r)
    unfolding after_stop unmonitor_child
    after_stop_keeps (pid, d) p =
        if-keeps After (same_pid pid minus_one) _ _ p (destroy_keeps _ (on_pid d _ p))

    stop_by_keeps : (l : Launch) (args : List Bytes) (d : Daemon) → P d → After (stop_by s l args d)
    unfolding stop_by send_signal
    stop_by_keeps l [] d p =
        if-keeps After (is_process d.running_pid) _ _
          (wait_keeps d.running_pid l.rounds _ (on_sent d _ p)) p
    stop_by_keeps l (c ∷ args) d p =
        after_stop_keeps (exec_command s (c ∷ args) true l d) (exec_keeps (c ∷ args) true l d p)

    pub stop_keeps : (l : Launch) (d : Daemon) → P d → After (stop s l d)
    unfolding stop
    stop_keeps l d p = stop_by_keeps l s.stop_args d p

    after_restart_keeps : (r : ℤ × Daemon) → After r → After (after_restart r)
    unfolding after_restart
    after_restart_keeps (pid, d) p = if-keeps After (same_pid pid minus_one) _ _ p p

    restart_by_keeps :
        (l : Launch) (run : StartRun) (args : List Bytes) (d : Daemon)
        → P d
        → After (restart_by s l run args d)
    unfolding restart_by
    restart_by_keeps l run [] d p = start_keeps run _ (stop_keeps l d p)
    restart_by_keeps l run (c ∷ args) d p =
        after_restart_keeps (exec_command s (c ∷ args) true l d) (exec_keeps (c ∷ args) true l d p)

    pub restart_keeps : (l : Launch) (run : StartRun) (d : Daemon) → P d → After (restart s l run d)
    unfolding restart
    restart_keeps l run d p = restart_by_keeps l run s.restart_args d p
