-- ===== src/Trace/Dispatch/Closed.antt =====
-- The subcommands of src/pextlib1.0/tracelib.c once the server's socket is closed.
use mac_ports_fork.CString.{Bytes}
use mac_ports_fork.Prelude.{
  ◌>>=◌, same_result, ℕ, ◌≡◌, ◌≢◌, refl, sym, ap, ◌∙◌, subst, List, [], ◌∷◌, some, Bool, true,
  false, if◌then◌else◌, ◌==◌, ◌||◌, not, length, get_or,
}
use mac_ports_fork.Trace.Dispatch.{
  TraceOption, k_set_name, k_open_socket, k_run, k_clean, k_set_sandbox, k_close_socket, k_set_deps,
  k_enable_fence, World, quiet, run_option,
}
use mac_ports_fork.Trace.Loop.{Event, run_cmd}
use mac_ports_fork.Trace.Messages.{Effect}
use mac_ports_fork.Trace.Server.{
  Settings, Tracelib, set_name, set_sandbox, set_deps, fence, open_socket, close_socket, third,
  sandbox_block, depends_block,
}

-- Closed, and waiting to be cleaned.
abbrev pub IsClosed : Bool × Tracelib × List Effect → Type 0
IsClosed (result, tl, effects) = (tl.cleanuping ≡ true) × (tl.listening ≡ false)

-- A socket that is asked for, and a run, succeed and do nothing.
abbrev pub IsIdle : TraceOption → Tracelib → Bool × Tracelib × List Effect → Type 0
IsIdle k_open_socket tl r = r ≡ (true, tl, [])
IsIdle k_run tl r = r ≡ (true, tl, [])
IsIdle _ tl r = Unit

abbrev Shut : Bool × Tracelib → Type 0
Shut (result, tl) = IsClosed (result, tl, [])

third-IsClosed :
    (objv : List Bytes) (f : Bytes → Tracelib) (tl : Tracelib)
    → ((text : Bytes) → Shut (true, f text))
    → Shut (false, tl)
    → Shut (third objv f tl)
third-IsClosed objv f tl h k = by_flag (length objv == 3)
  where
    by_flag : (b : Bool) → Shut (if b then (true, f (get_or objv 2 [])) else (false, tl))
    by_flag true = h (get_or objv 2 [])
    by_flag false = k

module _ (settings : Settings) (file_registered : Bytes → Bytes) (world : World) where
  shut_socket :
      (tl : Tracelib) → tl.cleanuping ≡ true → open_socket world.made world.bound tl ≡ (true, tl)
  unfolding open_socket
  shut_socket tl c = rw (open_socket, c) refl

  run_cmd-closed :
      (event : Event) (events : List Event) (socks : List ℕ) (tl : Tracelib)
      → tl.listening ≡ false
      → run_cmd settings file_registered (event ∷ events) socks tl ≡ some (tl, [])
  unfolding run_cmd
  run_cmd-closed event events socks tl l =
      let stops : (event.ended || not tl.listening) ≡ true = either event.ended in
      rw (run_cmd, stops) refl
    where
      either : (b : Bool) → (b || not tl.listening) ≡ true
      either true = refl
      either false = ap not l

  run_cmd-idle :
      (events : List Event) (socks : List ℕ) (tl : Tracelib) (r : Bool × Tracelib × List Effect)
      → tl.listening ≡ false
      → (run_cmd settings file_registered events socks tl >>= λ (tl', effects).
          some (true, tl', effects))
        ≡ some r
      → r ≡ (true, tl, [])
  unfolding run_cmd
  run_cmd-idle [] socks tl r l e = absurd cc
  run_cmd-idle (event ∷ events) socks tl r l e =
      same_result (λ q. q ≡ (true, tl, []))
        (sym (
            ap (λ m. m >>= λ (tl', effects). some (true, tl', effects))
              (run_cmd-closed event events socks tl l))
          ∙ e)
        refl

  -- Once the server's socket is closed, no subcommand but clean changes that: until then opensocket
  -- says that all is well and opens nothing, and run comes back at once.
  pub run_option-IsClosed :
      (o : TraceOption) (objv : List Bytes) (tl : Tracelib) (r : Bool × Tracelib × List Effect)
      → o ≢ k_clean
      → tl.cleanuping ≡ true
      → tl.listening ≡ false
      → run_option settings file_registered world o objv tl ≡ some r
      → IsClosed r × IsIdle o tl r
  unfolding run_option set_name set_sandbox set_deps fence open_socket close_socket
  run_option-IsClosed k_clean objv tl r n c l e = absurd (n refl)
  run_option-IsClosed k_set_name objv tl r n c l e = (
    same_result IsClosed e
        (third-IsClosed objv (λ text. record tl { name = some text }) tl (λ text. (c, l)) (c, l)),
    tt,
  )
  run_option-IsClosed k_set_sandbox objv tl r n c l e = (
    same_result IsClosed e (
        third-IsClosed objv (λ text. record tl { sandbox = some (sandbox_block text) }) tl
          (λ text. (c, l)) (c, l)),
    tt,
  )
  run_option-IsClosed k_set_deps objv tl r n c l e = (
    same_result IsClosed e (
        third-IsClosed objv (λ text. record tl { depends = some (depends_block text) }) tl
          (λ text. (c, l)) (c, l)),
    tt,
  )
  run_option-IsClosed k_enable_fence objv tl r n c l e = (same_result IsClosed e (c, l), tt)
  run_option-IsClosed k_close_socket objv tl r n c l e = (same_result IsClosed e (refl, refl), tt)
  run_option-IsClosed k_run objv tl r n c l e =
      let idle = run_cmd-idle world.events [] tl r l e in (subst IsClosed (sym idle) (c, l), idle)
  run_option-IsClosed k_open_socket objv tl r n c l e =
      let idle : r ≡ (true, tl, []) =
        same_result (λ q. q ≡ (true, tl, [])) (sym (ap (λ p. quiet p) (shut_socket tl c)) ∙ e)
          refl in
      (subst IsClosed (sym idle) (c, l), idle)
