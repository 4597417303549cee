-- ===== src/Daemondo/Timers.antt =====
-- The scheduled restarts of src/programs/daemondo/main.c: `ScheduleDelayedRestart` and the timer.
use mac_ports_fork.Prelude.{
  ℕ, ◌+◌, ◌≡◌, refl, sym, ap, ◌∙◌, Bool, true, false, List, [], ◌∷◌, Option, none, some, ◌==◌,
  arith,
}
use mathlib.Core.Option.{some-injective}
use mac_ports_fork.Daemondo.PidFile.{Options, Daemon}
use mac_ports_fork.Daemondo.Callbacks.{
  invalidate, cancel_by, cancel_scheduled_restart, schedule_restart_for_time,
  schedule_delayed_restart, PowerMessage, will_sleep, can_sleep, powered_on, other_message,
  power_callback, scheduled_restart_callback, Callback, call, calls, sigterm, sighup, sigchld,
  other_signal, process_exits, other_kevent, timer_fires, store_changes, notifies, power,
}
use mac_ports_fork.Daemondo.Keeps.{if-keeps, death_keeps, children_keep, stop_keeps, restart_keeps}

-- The run loop has no timer, or the one that `restartTimer` points to.
pub data HasOneTimer (timers : List ℕ) (restart_timer : Option ℕ) : Type 0 where
  no_timer : timers ≡ [] → HasOneTimer timers restart_timer
  one_timer : (t : ℕ) → timers ≡ t ∷ [] → restart_timer ≡ some t → HasOneTimer timers restart_timer

abbrev pub IsCoalesced : Daemon → Type 0
IsCoalesced d = HasOneTimer d.timers d.restart_timer

invalidate_same : (t : ℕ) → invalidate t (t ∷ []) ≡ []
unfolding invalidate
invalidate_same t = ground arith

invalidate-HasOneTimer :
    (t : ℕ) (l : List ℕ) (o : Option ℕ) → HasOneTimer l o → HasOneTimer (invalidate t l) o
unfolding invalidate
invalidate-HasOneTimer t l o (no_timer e) = rw e (no_timer refl)
invalidate-HasOneTimer t l o (one_timer u e f) =
    rw e (if-keeps (λ l. HasOneTimer l o) (t == u) [] (u ∷ []) (no_timer refl) (one_timer u refl f))

-- What the cancelling leaves, by the pointer to the timer.
cancelled_by : (d : Daemon) (o : Option ℕ) → HasOneTimer d.timers o → (cancel_by o d).timers ≡ []
unfolding cancel_by
cancelled_by d none (no_timer e) = e
cancelled_by d none (one_timer t e f) = cc
cancelled_by d (some u) (no_timer e) = ap (invalidate u) e
cancelled_by d (some u) (one_timer t e f) =
    ap (invalidate u) (e ∙ ap (λ t. t ∷ []) (sym (some-injective u t f))) ∙ invalidate_same u

cancelled : (d : Daemon) → IsCoalesced d → (cancel_scheduled_restart d).timers ≡ []
unfolding cancel_scheduled_restart
cancelled d h = cancelled_by d d.restart_timer h

scheduled :
    (s : Options) (created : Bool) (now : ℕ) (d : Daemon)
    → IsCoalesced d
    → IsCoalesced (schedule_delayed_restart s created now d)
unfolding schedule_delayed_restart schedule_restart_for_time
scheduled s true now d h =
    one_timer (now + s.hysteresis) (ap (◌∷◌ (now + s.hysteresis)) (cancelled d h)) refl
scheduled s false now d h = no_timer (cancelled d h)

powered :
    (s : Options) (m : PowerMessage) (created : Bool) (now : ℕ) (d : Daemon)
    → IsCoalesced d
    → IsCoalesced (power_callback s m created now d)
unfolding power_callback
powered s will_sleep created now d h = h
powered s can_sleep created now d h = h
powered s powered_on created now d h =
    if-keeps IsCoalesced s.restart_on_wakeup _ _ (scheduled s created now d h) h
powered s other_message created now d h = h

-- No control operation looks at the timers.
module _ (s : Options) where
  call-IsCoalesced : (e : Callback) (d : Daemon) → IsCoalesced d → IsCoalesced (call s e d)
  unfolding call scheduled_restart_callback
  call-IsCoalesced (sigterm l) d h =
      if-keeps IsCoalesced d.terminating _ _ h
        (stop_keeps IsCoalesced (λ d p h. h) (λ d f h. h) s (λ d l h. h) l _ h)
  call-IsCoalesced (sighup l run) d h =
      if-keeps IsCoalesced d.terminating _ _ h
        (restart_keeps IsCoalesced (λ d p h. h) (λ d f h. h) s (λ d l h. h) l run d h)
  call-IsCoalesced (sigchld deaths) d h =
      children_keep IsCoalesced (λ d p h. h) (λ d f h. h) s deaths d h
  call-IsCoalesced other_signal d h = h
  call-IsCoalesced (process_exits pid) d h =
      death_keeps IsCoalesced (λ d p h. h) (λ d f h. h) s pid d h
  call-IsCoalesced other_kevent d h = h
  call-IsCoalesced (timer_fires t l run) d h =
      restart_keeps IsCoalesced (λ d p h. h) (λ d f h. h) s (λ d l h. h) l run _
        (invalidate-HasOneTimer t d.timers d.restart_timer h)
  call-IsCoalesced (store_changes created now) d h = scheduled s created now d h
  call-IsCoalesced (notifies created now) d h = scheduled s created now d h
  call-IsCoalesced (power m created now) d h = powered s m created now d h

  calls-IsCoalesced : (es : List Callback) (d : Daemon) → IsCoalesced d → IsCoalesced (calls s es d)
  unfolding calls
  calls-IsCoalesced [] d h = h
  calls-IsCoalesced (e ∷ es) d h = calls-IsCoalesced es _ (call-IsCoalesced e d h)

-- Requests for a restart are coalesced: after any calls of the run loop, in any order, that begin
-- without a timer, a request whose timer can be created leaves that timer as the only one, due when
-- the hysteresis has passed.
pub schedule_delayed_restart-calls :
    (s : Options) (es : List Callback) (d : Daemon) (now : ℕ)
    → d.timers ≡ []
    → (schedule_delayed_restart s true now (calls s es d)).timers ≡ (now + s.hysteresis) ∷ []
unfolding schedule_delayed_restart schedule_restart_for_time
schedule_delayed_restart-calls s es d now none_yet =
    ap (◌∷◌ (now + s.hysteresis))
      (cancelled (calls s es d) (calls-IsCoalesced s es d (no_timer none_yet)))
