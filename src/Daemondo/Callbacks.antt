-- ===== src/Daemondo/Callbacks.antt =====
-- The callbacks of src/programs/daemondo/main.c, which Core Foundation's run loop makes: signals,
-- the death of a child, the timer of a restart, and the events that schedule one.
use mac_ports_fork.Prelude.{
  ℕ, ◌+◌, Bool, true, List, [], ◌∷◌, Option, none, some, ◌==◌, if◌then◌else◌,
}
use mac_ports_fork.Prelude.Int.{ℤ}
use mac_ports_fork.Daemondo.PidFile.{Options, Daemon, process_child_death, check_children}
use mac_ports_fork.Daemondo.Control.{Launch, StartRun, stop, restart}

-- `CFRunLoopTimerInvalidate` takes a timer out of the run loop; one that has fired is not in it.
unfoldable pub invalidate : ℕ → List ℕ → List ℕ
invalidate t [] = []
invalidate t (u ∷ r) = if t == u then r else u ∷ invalidate t r

-- `CancelScheduledRestart`, by `restartTimer`.
unfoldable pub cancel_by : Option ℕ → Daemon → Daemon
unfolding invalidate
cancel_by none d = d
cancel_by (some t) d = record d { timers = invalidate t d.timers; restart_timer = none }

unfoldable pub cancel_scheduled_restart : Daemon → Daemon
unfolding cancel_by
cancel_scheduled_restart d = cancel_by d.restart_timer d

-- `created` tells whether `CFRunLoopTimerCreate` gives a timer.
unfoldable pub schedule_restart_for_time : Bool → ℕ → Daemon → Daemon
unfolding cancel_scheduled_restart
schedule_restart_for_time created time d =
    let d' = cancel_scheduled_restart d in
    if created then record d' { restart_timer = some time; timers = time ∷ d'.timers } else d'

-- `now` is the time of the call.
unfoldable pub schedule_delayed_restart : Options → Bool → ℕ → Daemon → Daemon
unfolding schedule_restart_for_time
schedule_delayed_restart s created now d = schedule_restart_for_time created (now + s.hysteresis) d

pub data PowerMessage : Type 0 where
  will_sleep can_sleep powered_on other_message : PowerMessage

-- The calls of the run loop, with what the system does in each.
pub data Callback : Type 0 where
  sigterm : Launch → Callback
  sighup : Launch → StartRun → Callback
  sigchld : List ℤ → Callback
  other_signal : Callback
  process_exits : ℤ → Callback
  other_kevent : Callback
  timer_fires : ℕ → Launch → StartRun → Callback
  store_changes notifies : Bool → ℕ → Callback
  power : PowerMessage → Bool → ℕ → Callback

unfoldable pub power_callback : Options → PowerMessage → Bool → ℕ → Daemon → Daemon
unfolding schedule_delayed_restart
power_callback s powered_on created now d =
    if s.restart_on_wakeup then schedule_delayed_restart s created now d else d
power_callback s will_sleep created now d = d
power_callback s can_sleep created now d = d
power_callback s other_message created now d = d

-- The timer is not in the run loop once it has fired.
unfoldable pub scheduled_restart_callback : Options → ℕ → Launch → StartRun → Daemon → Daemon
unfolding restart invalidate
scheduled_restart_callback s t l run d =
    (restart s l run (record d { timers = invalidate t d.timers })).1

unfoldable pub call : Options → Callback → Daemon → Daemon
unfolding stop restart check_children process_child_death scheduled_restart_callback
    schedule_delayed_restart power_callback
call s (sigterm l) d = if d.terminating then d else (stop s l (record d { terminating = true })).1
call s (sighup l run) d = if d.terminating then d else (restart s l run d).1
call s (sigchld deaths) d = check_children s deaths d
call s other_signal d = d
call s (process_exits pid) d = process_child_death s pid d
call s other_kevent d = d
call s (timer_fires t l run) d = scheduled_restart_callback s t l run d
call s (store_changes created now) d = schedule_delayed_restart s created now d
call s (notifies created now) d = schedule_delayed_restart s created now d
call s (power message created now) d = power_callback s message created now d

-- A run of the loop: its calls in any order.
unfoldable pub calls : Options → List Callback → Daemon → Daemon
unfolding call
calls s [] d = d
calls s (e ∷ es) d = calls s es (call s e d)
