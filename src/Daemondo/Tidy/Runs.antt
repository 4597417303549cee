-- ===== src/Daemondo/Tidy/Runs.antt =====
-- The pid file of src/programs/daemondo/main.c in runs of its callbacks.
use mac_ports_fork.Prelude.{ℕ, ◌≡◌, Bool, true, false, Option, none, some, List, [], ◌∷◌}
use mac_ports_fork.Daemondo.PidFile.{Options, Daemon, is_process}
use mac_ports_fork.Daemondo.Control.{StartRun, start}
use mac_ports_fork.Daemondo.Callbacks.{
  PowerMessage, will_sleep, can_sleep, powered_on, other_message, power_callback,
  scheduled_restart_callback, Callback, call, calls, sigterm, sighup, sigchld, other_signal,
  process_exits, other_kevent, timer_fires, store_changes, notifies, power,
  schedule_delayed_restart, schedule_restart_for_time, cancel_scheduled_restart, cancel_by,
}
use mac_ports_fork.Daemondo.Keeps.{if-keeps}
use mac_ports_fork.Daemondo.Tidy.{
  IsTidy, Tidy, WritesFile, stop-Tidy, restart-Tidy, children-Tidy, death-Tidy, started-Tidy,
}

module _ (s : Options) (w : WritesFile s) where
  -- A request for a restart looks at neither.
  cancel-Tidy : (o : Option ℕ) (d : Daemon) → Tidy d → Tidy (cancel_by o d)
  unfolding cancel_by
  cancel-Tidy none d h = h
  cancel-Tidy (some t) d h = h

  schedule-Tidy :
      (b : Bool) (now : ℕ) (d : Daemon) → Tidy d → Tidy (schedule_delayed_restart s b now d)
  unfolding schedule_delayed_restart schedule_restart_for_time cancel_scheduled_restart
  schedule-Tidy true now d h = cancel-Tidy d.restart_timer d h
  schedule-Tidy false now d h = cancel-Tidy d.restart_timer d h

  power-Tidy :
      (m : PowerMessage) (b : Bool) (now : ℕ) (d : Daemon)
      → Tidy d
      → Tidy (power_callback s m b now d)
  unfolding power_callback
  power-Tidy will_sleep b now d h = h
  power-Tidy can_sleep b now d h = h
  power-Tidy powered_on b now d h =
      if-keeps Tidy s.restart_on_wakeup _ _ (schedule-Tidy b now d h) h
  power-Tidy other_message b now d h = h

  call-Tidy : (e : Callback) (d : Daemon) → Tidy d → Tidy (call s e d)
  unfolding call scheduled_restart_callback
  call-Tidy (sigterm l) d h = if-keeps Tidy d.terminating _ _ h (stop-Tidy s w l _ h)
  call-Tidy (sighup l run) d h = if-keeps Tidy d.terminating _ _ h (restart-Tidy s w l run d h)
  call-Tidy (sigchld deaths) d h = children-Tidy s w deaths d h
  call-Tidy other_signal d h = h
  call-Tidy (process_exits pid) d h = death-Tidy s w pid d h
  call-Tidy other_kevent d h = h
  call-Tidy (timer_fires t l run) d h = restart-Tidy s w l run _ h
  call-Tidy (store_changes b now) d h = schedule-Tidy b now d h
  call-Tidy (notifies b now) d h = schedule-Tidy b now d h
  call-Tidy (power m b now) d h = power-Tidy m b now d h

  calls-Tidy : (es : List Callback) (d : Daemon) → Tidy d → Tidy (calls s es d)
  unfolding calls
  calls-Tidy [] d h = h
  calls-Tidy (e ∷ es) d h = calls-Tidy es _ (call-Tidy e d h)

-- The pid file is never stale: in the style `exec`, with a pid file that may be written and removed,
-- after a start that succeeded with a process, whatever the run loop calls and whatever the system
-- does in those calls, there is no pid file, or it has the pid of the process that is tracked.
pub calls-IsTidy :
    (s : Options) (run : StartRun) (es : List Callback) (d : Daemon)
    → WritesFile s
    → is_process run.launch.forked ≡ true
    → (start s run d).0 ≡ 0
    → IsTidy (calls s es (start s run d).1).running_pid (calls s es (start s run d).1).disk
unfolding start
calls-IsTidy s run es d w p e = calls-Tidy s w es _ (started-Tidy s w run s.start_args d p e)
