-- ===== src/Daemondo/Tidy.antt =====
-- The pid file of src/programs/daemondo/main.c in the style `exec`, in which daemondo writes it.
pub mod Runs
use mac_ports_fork.CString.{Bytes}
use mac_ports_fork.Prelude.{
  ℕ, zero, suc, ◌≡◌, refl, sym, subst, ap, ◌∙◌, Bool, true, false, Bool-cases, ◌⊎◌, inl, inr,
  Option, none, some, List, [], ◌∷◌, ◌&&◌, not, ◌==◌, if◌then◌else◌, arith,
}
use mac_ports_fork.Prelude.Int.{ℤ, pos, negsuc}
use mac_ports_fork.Daemondo.PidFile.{
  PidStyle, exec, OnDisk, absent, unreadable, holds, Options, Daemon, SignalKind, minus_one,
  same_pid, is_process, create_pid_file, create_by, remove_pid_file, destroy_pid_file, destroy_by,
  read_pid, delete_preexisting_pid_file, monitor_child, unmonitor_child, process_child_death,
  check_children,
}
use mac_ports_fork.Daemondo.Control.{
  WaitRound, watches, loses_patience, send_signal, wait_round, wait_child_death, Launch,
  exec_command, StartRun, track, discover, after_exec, is_none_known, make_ready, start, start_by,
  stop_by, restart_by, after_stop, stop, after_restart, restart,
}
use mac_ports_fork.Daemondo.Callbacks.{
  PowerMessage, will_sleep, can_sleep, powered_on, other_message, power_callback,
  scheduled_restart_callback, Callback, call, calls, sigterm, sighup, sigchld, other_signal,
  process_exits, other_kevent, timer_fires, store_changes, notifies, power,
  schedule_delayed_restart, schedule_restart_for_time, cancel_scheduled_restart, cancel_by,
}
use mac_ports_fork.Daemondo.Keeps.{if-keeps}

-- There is no pid file, or it has the pid of the process that is tracked.
pub data IsTidy (running_pid : ℤ) (disk : OnDisk) : Type 0 where
  no_file : disk ≡ absent → IsTidy running_pid disk
  own_file : disk ≡ holds running_pid → is_process running_pid ≡ true → IsTidy running_pid disk

abbrev pub Tidy : Daemon → Type 0
Tidy d = IsTidy d.running_pid d.disk

-- The settings: daemondo writes the file itself, and may write and remove it.
pub record WritesFile (s : Options) : Type 0 where
  pub by_exec : s.pid_style ≡ exec
  pub named : s.has_pid_file ≡ true
  pub can_remove : s.removable ≡ true
  pub can_write : s.writable ≡ true

abbrev pub TidyAfter : {A : Type 0} → A × Daemon → Type 0
TidyAfter r = Tidy r.1

read_holds : (p : ℤ) → is_process p ≡ true → same_pid (read_pid (holds p)) minus_one ≡ false
unfolding read_pid
read_holds (pos n) h = ground arith
read_holds (negsuc n) h = ground arith

not_failed : (p : ℤ) → is_process p ≡ true → same_pid p minus_one ≡ false
not_failed (pos n) h = refl
not_failed (negsuc n) h = ground arith

module _ (s : Options) (w : WritesFile s) where
  remove_pid_file_lem : (d : Daemon) → remove_pid_file s d ≡ record d { disk = absent }
  unfolding remove_pid_file
  remove_pid_file_lem d = rw w.can_remove refl

  destroyed : (d : Daemon) → destroy_pid_file s d ≡ record d { disk = absent }
  unfolding destroy_pid_file destroy_by
  destroyed d = rw (w.named, w.by_exec) (remove_pid_file_lem d)

  created : (d : Daemon) → create_pid_file s d ≡ record d { disk = holds d.running_pid }
  unfolding create_pid_file create_by
  created d = rw (w.named, w.by_exec, w.can_write) refl

  destroy-Tidy : (d : Daemon) → Tidy (destroy_pid_file s d)
  destroy-Tidy d = rw (destroyed d) (no_file refl)

  pub death-Tidy : (pid : ℤ) (d : Daemon) → Tidy d → Tidy (process_child_death s pid d)
  unfolding process_child_death
  death-Tidy pid d h =
      if-keeps Tidy (is_process d.running_pid && same_pid pid d.running_pid) _ _
        (destroy-Tidy (unmonitor_child d)) h

  pub children-Tidy : (l : List ℤ) (d : Daemon) → Tidy d → Tidy (check_children s l d)
  unfolding check_children
  children-Tidy [] d h = h
  children-Tidy (p ∷ l) d h = children-Tidy l _ (death-Tidy p d h)

  wait-Tidy :
      (pid : ℤ) (l : List WaitRound) (d : Daemon) → Tidy d → Tidy (wait_child_death s pid l d)
  unfolding wait_child_death wait_round send_signal
  wait-Tidy pid [] d h = death-Tidy pid d h
  wait-Tidy pid (watches deaths ∷ l) d h = wait-Tidy pid l _ (children-Tidy deaths d h)
  wait-Tidy pid (loses_patience ∷ l) d h = wait-Tidy pid l _ h

  exec-Tidy :
      (args : List Bytes) (l : Launch) (d : Daemon)
      → Tidy d
      → TidyAfter (exec_command s args true l d)
  unfolding exec_command
  exec-Tidy [] l d h = h
  exec-Tidy ([] ∷ args) l d h = h
  exec-Tidy ((c ∷ name) ∷ args) l d h =
      if-keeps TidyAfter (same_pid l.forked minus_one) _ _ h (wait-Tidy l.forked l.rounds d h)

  after_stop-Tidy : (r : ℤ × Daemon) → TidyAfter r → TidyAfter (after_stop s r)
  unfolding after_stop
  after_stop-Tidy (pid, d) h =
      if-keeps TidyAfter (same_pid pid minus_one) _ _ h (destroy-Tidy (unmonitor_child d))

  stop_by-Tidy :
      (l : Launch) (args : List Bytes) (d : Daemon) → Tidy d → TidyAfter (stop_by s l args d)
  unfolding stop_by send_signal
  stop_by-Tidy l [] d h =
      if-keeps TidyAfter (is_process d.running_pid) _ _ (wait-Tidy d.running_pid l.rounds _ h) h
  stop_by-Tidy l (c ∷ args) d h =
      after_stop-Tidy (exec_command s (c ∷ args) true l d) (exec-Tidy (c ∷ args) l d h)

  -- A file that has the pid of a process is one that a start removes.
  ready_absent : (d : Daemon) → Tidy d → (make_ready s d).disk ≡ absent
  unfolding make_ready delete_preexisting_pid_file
  ready_absent d (no_file e) = rw w.named (
      if-keeps (λ d. d.disk ≡ absent) (same_pid (read_pid d.disk) minus_one) d (remove_pid_file s d)
        e (ap (λ d. d.disk) (remove_pid_file_lem d)))
  ready_absent d (own_file e p) =
      rw (w.named, ap (λ f. same_pid (read_pid f) minus_one) e ∙ read_holds d.running_pid p)
        (ap (λ d. d.disk) (remove_pid_file_lem d))

  track-Tidy : (pid : ℤ) (d : Daemon) → d.disk ≡ absent → TidyAfter (track s pid d)
  unfolding track monitor_child
  track-Tidy pid d e = elim (Bool-cases (is_process pid)) [
    | inl p ↦ rw (p, created (record d { running_pid = pid })) (own_file refl p)
    | inr p ↦ rw p (no_file e)
  ]

  exec_absent :
      (args : List Bytes) (l : Launch) (d : Daemon)
      → d.disk ≡ absent
      → (exec_command s args false l d).1.disk ≡ absent
  unfolding exec_command
  exec_absent [] l d e = e
  exec_absent ([] ∷ args) l d e = e
  exec_absent ((c ∷ name) ∷ args) l d e =
      if-keeps (λ (r : ℤ × Daemon). r.1.disk ≡ absent) (same_pid l.forked minus_one) (minus_one, d)
        (l.forked, d) e e

  after_exec-Tidy :
      (run : StartRun) (r : ℤ × Daemon) → r.1.disk ≡ absent → TidyAfter (after_exec s run r)
  unfolding after_exec discover
  after_exec-Tidy run (pid, d) e =
      if-keeps TidyAfter (same_pid pid minus_one) _ _ (no_file e) (
        subst (λ style. TidyAfter (discover s run style pid d)) (sym w.by_exec)
          (track-Tidy pid d e))

  -- In the style `exec` the command is not waited for.
  by_style :
      (args : List Bytes) (run : StartRun) (d : Daemon)
      → TidyAfter (after_exec s run (exec_command s args false run.launch (make_ready s d)))
      → TidyAfter (
          after_exec s run
            (exec_command s args (is_none_known s.pid_style) run.launch (make_ready s d)))
  by_style args run d h =
      subst
        (λ style. TidyAfter (
          after_exec s run (exec_command s args (is_none_known style) run.launch (make_ready s d))))
        (sym w.by_exec) h

  start_by-Tidy :
      (run : StartRun) (args : List Bytes) (d : Daemon) → Tidy d → TidyAfter (start_by s run args d)
  unfolding start_by
  start_by-Tidy run [] d h = h
  start_by-Tidy run (c ∷ args) d h = by_style (c ∷ args) run d (
      after_exec-Tidy run (exec_command s (c ∷ args) false run.launch (make_ready s d))
        (exec_absent (c ∷ args) run.launch (make_ready s d) (ready_absent d h)))

  pub stop-Tidy : (l : Launch) (d : Daemon) → Tidy d → TidyAfter (stop s l d)
  unfolding stop
  stop-Tidy l d h = stop_by-Tidy l s.stop_args d h

  after_restart-Tidy : (r : ℤ × Daemon) → TidyAfter r → TidyAfter (after_restart r)
  unfolding after_restart
  after_restart-Tidy (pid, d) h = if-keeps TidyAfter (same_pid pid minus_one) _ _ h h

  restart_by-Tidy :
      (l : Launch) (run : StartRun) (args : List Bytes) (d : Daemon)
      → Tidy d
      → TidyAfter (restart_by s l run args d)
  unfolding restart_by start
  restart_by-Tidy l run [] d h = start_by-Tidy run s.start_args _ (stop-Tidy l d h)
  restart_by-Tidy l run (c ∷ args) d h =
      after_restart-Tidy (exec_command s (c ∷ args) true l d) (exec-Tidy (c ∷ args) l d h)

  pub restart-Tidy :
      (l : Launch) (run : StartRun) (d : Daemon) → Tidy d → TidyAfter (restart s l run d)
  unfolding restart
  restart-Tidy l run d h = restart_by-Tidy l run s.restart_args d h

  -- A start that succeeds with a process writes the file, whatever was there.
  tracked : (pid : ℤ) (d : Daemon) → is_process pid ≡ true → TidyAfter (track s pid d)
  unfolding track monitor_child
  tracked pid d p = rw (p, created (record d { running_pid = pid })) (own_file refl p)

  launched :
      (run : StartRun) (pid : ℤ) (d : Daemon)
      → is_process pid ≡ true
      → TidyAfter (after_exec s run (pid, d))
  unfolding after_exec discover
  launched run pid d p =
      rw (not_failed pid p)
        (subst (λ style. TidyAfter (discover s run style pid d)) (sym w.by_exec) (tracked pid d p))

  pub started-Tidy :
      (run : StartRun) (args : List Bytes) (d : Daemon)
      → is_process run.launch.forked ≡ true
      → (start_by s run args d).0 ≡ 0
      → TidyAfter (start_by s run args d)
  unfolding start_by exec_command after_exec
  started-Tidy run [] d p e = absurd (omega (arith, e))
  started-Tidy run ([] ∷ args) d p e = absurd (omega (arith, e))
  started-Tidy run ((c ∷ name) ∷ args) d p e =
      by_style ((c ∷ name) ∷ args) run d
        (rw (not_failed run.launch.forked p) (launched run run.launch.forked (make_ready s d) p))
