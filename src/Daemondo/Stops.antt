-- ===== src/Daemondo/Stops.antt =====
-- A stop without a command in src/programs/daemondo/main.c: `Stop` and `WaitChildDeath`.
use mac_ports_fork.Prelude.{
  ◌≡◌, refl, sym, subst, ap, ◌∙◌, true, ◌⊎◌, inl, inr, List, [], ◌∷◌, ◌++◌, append_assoc, ◌&&◌,
  if◌then◌else◌, arith,
}
use mac_ports_fork.Prelude.Int.{ℤ, pos, negsuc}
use mac_ports_fork.Daemondo.PidFile.{
  PidStyle, unknown, none_known, exec, file_auto, file_clean, Options, Daemon, SignalKind, sig_term,
  sig_kill, same_pid, is_process, remove_pid_file, destroy_pid_file, destroy_by, unmonitor_child,
  process_child_death, check_children,
}
use mac_ports_fork.Daemondo.Control.{
  WaitRound, watches, loses_patience, send_signal, wait_round, wait_child_death, Launch, stop_by,
  stop,
}
use mac_ports_fork.Daemondo.Keeps.{if-keeps, death_keeps, children_keep}

-- The signals of the rounds, newest first: SIGKILL for each round without patience.
unfoldable pub kills : ℤ → List WaitRound → List (ℤ × SignalKind)
kills pid [] = []
kills pid (watches deaths ∷ l) = kills pid l
kills pid (loses_patience ∷ l) = kills pid l ++ ((pid, sig_kill) ∷ [])

-- The process is tracked, or its death was processed.
abbrev IsOver : ℤ → Daemon → Type 0
IsOver pid d = (d.running_pid ≡ pid) ⊎ (d.running_pid ≡ pos 0)

same_pid_refl : (p : ℤ) → same_pid p p ≡ true
same_pid_refl (pos n) = ground arith
same_pid_refl (negsuc n) = ground arith

both_true : (p : ℤ) → is_process p ≡ true → (is_process p && same_pid p p) ≡ true
both_true p h = rw (h, same_pid_refl p) refl

module _ (s : Options) (pid : ℤ) (tracked : is_process pid ≡ true) where
  remove_running : (d : Daemon) → (remove_pid_file s d).running_pid ≡ d.running_pid
  unfolding remove_pid_file
  remove_running d =
      if-keeps (λ (e : Daemon). e.running_pid ≡ d.running_pid) s.removable _ d refl refl

  destroy_by_running :
      (style : PidStyle) (d : Daemon) → (destroy_by s style d).running_pid ≡ d.running_pid
  unfolding destroy_by
  destroy_by_running unknown d = refl
  destroy_by_running none_known d = refl
  destroy_by_running exec d = remove_running d
  destroy_by_running file_auto d = refl
  destroy_by_running file_clean d = remove_running d

  destroy_running : (d : Daemon) → (destroy_pid_file s d).running_pid ≡ d.running_pid
  unfolding destroy_pid_file
  destroy_running d =
      if-keeps (λ (e : Daemon). e.running_pid ≡ d.running_pid) s.has_pid_file _ d
        (destroy_by_running s.pid_style d) refl

  unmonitored : (d : Daemon) → (destroy_pid_file s (unmonitor_child d)).running_pid ≡ pos 0
  unfolding unmonitor_child
  unmonitored d = destroy_running (record d { running_pid = pos 0 })

  death-IsOver : (p : ℤ) (d : Daemon) → IsOver pid d → IsOver pid (process_child_death s p d)
  unfolding process_child_death
  death-IsOver p d h =
      if-keeps (IsOver pid) (is_process d.running_pid && same_pid p d.running_pid) _ d
        (inr (unmonitored d)) h

  children-IsOver : (l : List ℤ) (d : Daemon) → IsOver pid d → IsOver pid (check_children s l d)
  unfolding check_children
  children-IsOver [] d h = h
  children-IsOver (p ∷ l) d h = children-IsOver l _ (death-IsOver p d h)

  -- The death of the tracked process is processed at the end at the latest.
  death_ends : (d : Daemon) → IsOver pid d → (process_child_death s pid d).running_pid ≡ pos 0
  unfolding process_child_death
  death_ends d (inl e) =
      subst (λ b. (if b then destroy_pid_file s (unmonitor_child d) else d).running_pid ≡ pos 0)
        (sym (ap (λ r. is_process r && same_pid pid r) e ∙ both_true pid tracked)) (unmonitored d)
  death_ends d (inr e) =
      subst (λ b. (if b then destroy_pid_file s (unmonitor_child d) else d).running_pid ≡ pos 0)
        (sym (ap (λ r. is_process r && same_pid pid r) e)) e

  wait_ends :
      (l : List WaitRound) (d : Daemon)
      → IsOver pid d
      → (wait_child_death s pid l d).running_pid ≡ pos 0
  unfolding wait_child_death wait_round send_signal
  wait_ends [] d h = death_ends d h
  wait_ends (watches deaths ∷ l) d h = wait_ends l _ (children-IsOver deaths d h)
  wait_ends (loses_patience ∷ l) d h = wait_ends l _ h

  -- No death sends a signal.
  children_sent : (l : List ℤ) (d : Daemon) → (check_children s l d).sent ≡ d.sent
  children_sent l d = children_keep (λ e. e.sent ≡ d.sent) (λ e q h. h) (λ e f h. h) s l d refl

  death_sent : (d : Daemon) → (process_child_death s pid d).sent ≡ d.sent
  death_sent d = death_keeps (λ e. e.sent ≡ d.sent) (λ e q h. h) (λ e f h. h) s pid d refl

  wait_sent :
      (l : List WaitRound) (d : Daemon) → (wait_child_death s pid l d).sent ≡ kills pid l ++ d.sent
  unfolding wait_child_death wait_round send_signal kills
  wait_sent [] d = death_sent d
  wait_sent (watches deaths ∷ l) d =
      wait_sent l (check_children s deaths d) ∙ ap (◌++◌ (kills pid l)) (children_sent deaths d)
  wait_sent (loses_patience ∷ l) d =
      wait_sent l (send_signal sig_kill pid d)
      ∙ sym (append_assoc (kills pid l) ((pid, sig_kill) ∷ []) d.sent)

stopped :
    (s : Options) (l : Launch) (d : Daemon)
    → is_process d.running_pid ≡ true
    → ((stop_by s l [] d).0 ≡ 0)
      × ((stop_by s l [] d).1.running_pid ≡ pos 0)
      × ((stop_by s l [] d).1.sent
          ≡ kills d.running_pid l.rounds ++ (d.running_pid, sig_term) ∷ d.sent)
unfolding stop_by send_signal
stopped s l d tracked = rw tracked (
  refl,
  wait_ends s d.running_pid tracked l.rounds (send_signal sig_term d.running_pid d) (inl refl),
  wait_sent s d.running_pid tracked l.rounds (send_signal sig_term d.running_pid d),
)

-- A stop without a stop command, where a process is tracked, succeeds and leaves none tracked,
-- whatever deaths are reported meanwhile; the process is sent SIGTERM first, and then SIGKILL in
-- each round that begins without patience, and no other signal is sent.
pub stop-tracked :
    (s : Options) (l : Launch) (d : Daemon)
    → s.stop_args ≡ []
    → is_process d.running_pid ≡ true
    → ((stop s l d).0 ≡ 0)
      × ((stop s l d).1.running_pid ≡ pos 0)
      × ((stop s l d).1.sent ≡ kills d.running_pid l.rounds ++ (d.running_pid, sig_term) ∷ d.sent)
unfolding stop
stop-tracked s l d none_given tracked =
    subst
      (λ args.
        ((stop_by s l args d).0 ≡ 0)
        × ((stop_by s l args d).1.running_pid ≡ pos 0)
        × ((stop_by s l args d).1.sent
            ≡ kills d.running_pid l.rounds ++ (d.running_pid, sig_term) ∷ d.sent))
      (sym none_given) (stopped s l d tracked)
