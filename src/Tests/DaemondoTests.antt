-- ===== src/Tests/DaemondoTests.antt =====
-- The theorems at concrete inputs for src/programs/daemondo/main.c.
use mac_ports_fork.Prelude.{ℕ, ◌≡◌, refl, List, [], ◌∷◌, none, true, false}
use mac_ports_fork.Prelude.Int.{pos}
use mac_ports_fork.Daemondo.PidFile.{
  exec, absent, holds, Options, Daemon, sig_term, sig_kill, minus_one,
}
use mac_ports_fork.Daemondo.Control.{watches, loses_patience, Launch, StartRun, start, stop}
use mac_ports_fork.Daemondo.Callbacks.{
  Callback, sighup, process_exits, store_changes, notifies, timer_fires, calls,
  schedule_delayed_restart,
}
use mac_ports_fork.Daemondo.Arguments.{collect_cmd_args, marker}
use mac_ports_fork.Daemondo.Stops.{stop-tracked, kills}
use mac_ports_fork.Daemondo.Timers.{schedule_delayed_restart-calls}
use mac_ports_fork.Daemondo.Tidy.{IsTidy, WritesFile}
use mac_ports_fork.Daemondo.Tidy.Runs.{calls-IsTidy}

abbrev settings : Options
settings = record {
  start_args = (b'd' ∷ []) ∷ [];
  stop_args = [];
  restart_args = [];
  pid_style = exec;
  has_pid_file = true;
  removable = true;
  writable = true;
  restart_on_wakeup = true;
  hysteresis = 5;
}

-- A pid file is left over from an earlier run.
abbrev before : Daemon
before = record {
  running_pid = pos 0;
  terminating = false;
  disk = holds (pos 3);
  restart_timer = none;
  timers = [];
  sent = [];
}

abbrev run_as : ℕ → StartRun
run_as p = record {
  launch = record { forked = pos p; rounds = [] };
  first_poll = record { content = absent; alive = false };
  polls = [];
}

abbrev waits : Launch
waits = record { forked = minus_one; rounds = watches (pos 9 ∷ []) ∷ loses_patience ∷ [] }

abbrev running : Daemon
running = record before { running_pid = pos 7; disk = holds (pos 7) }

started : start settings (run_as 7) before ≡ (0, running)
unfolding start
started = refl

abbrev busy : List Callback
busy =
    store_changes true 10
    ∷ notifies true 12
    ∷ sighup waits (run_as 8)
    ∷ timer_fires 17 waits (run_as 9)
    ∷ process_exits (pos 8)
    ∷ []

restarted : (calls settings busy running).disk ≡ holds (pos 9)
unfolding calls
restarted = refl

can_write : WritesFile settings
can_write = record { by_exec = refl; named = refl; can_remove = refl; can_write = refl }

calls-IsTidy_example :
    IsTidy
      (calls settings busy (start settings (run_as 7) before).1).running_pid
      (calls settings busy (start settings (run_as 7) before).1).disk
unfolding start
calls-IsTidy_example = calls-IsTidy settings (run_as 7) busy before can_write refl refl

stop-tracked_example :
    ((stop settings waits running).0 ≡ 0)
    × ((stop settings waits running).1.running_pid ≡ pos 0)
    × ((stop settings waits running).1.sent ≡ (pos 7, sig_kill) ∷ (pos 7, sig_term) ∷ [])
unfolding kills
stop-tracked_example = stop-tracked settings waits running refl refl

schedule_delayed_restart-calls_example :
    (schedule_delayed_restart settings true 20 (calls settings busy running)).timers ≡ 25 ∷ []
schedule_delayed_restart-calls_example =
    schedule_delayed_restart-calls settings busy running 20 refl

-- A start that fails while a process is tracked leaves that process without its pid file.
abbrev fails : StartRun
fails = record (run_as 7) { launch = record { forked = minus_one; rounds = [] } }

untidy : start settings fails running ≡ (2, record running { disk = absent })
unfolding start
untidy = refl

collected :
    collect_cmd_args (b'a' ∷ []) ((b'b' ∷ []) ∷ marker ∷ (b'c' ∷ []) ∷ [])
    ≡ ((b'a' ∷ []) ∷ (b'b' ∷ []) ∷ [], 2)
unfolding collect_cmd_args
collected = refl
