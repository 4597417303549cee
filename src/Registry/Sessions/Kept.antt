-- ===== src/Registry/Sessions/Kept.antt =====
-- The operations of src/cregistry/registry.c keep the flags of a registry in step
-- with the statements that have worked.
use mac_ports_fork.Prelude.{
  same_result, ◌>>=◌, ◌≡◌, refl, sym, ap, subst, ◌∙◌, List, [], ◌∷◌, Option, none, some, Bool, true,
  false, if◌then◌else◌,
}
use mac_ports_fork.Registry.Attach.{detached, detach_prepared, reg_detach}
use mac_ports_fork.Registry.Connection.{
  Status, ok, busy, row, done, failed, Statement, begin, begin_immediate, commit, rollback,
  detach_database, prepared, executed, Connection, ask, ask_until_free,
}
use mac_ports_fork.Registry.Transactions.{
  misuse, sqlite_error, Answer, threw, Registry, Done, on_ok, reg_start, reg_start_read,
  reg_start_write, reg_end, reg_commit, reg_rollback,
}
use mac_ports_fork.Registry.Sessions.{
  effect, begun, Fits, IsNested, Kept, Operation, start_read, start_write, end_commit, end_rollback,
  detach, run, run_all,
}
use mac_ports_fork.Registry.Sessions.Grown.{
  Grown, retry-Grown, ask-Grown, Same, retry-Same, ask-Same,
}

Kept-failed :
    (reg : Registry) (conn : Connection) (answer : Answer) (reg' : Registry)
    → IsNested conn.log × (begun conn.log ≡ begun reg.conn.log)
    → Kept reg
    → Path
        (Option (Answer × Registry))
        (some (threw sqlite_error, record reg { conn = conn }))
        (some (answer, reg'))
    → Kept reg'
Kept-failed reg conn answer reg' g k e = same_result (λ (_, r). Kept r) e (g.0, g.1 ∙ k.1, k.2)

on_ok-Kept :
    (q : Statement) (f : Connection → Registry) (reg : Registry) (o : Option (Status × Connection))
    (answer : Answer) (reg' : Registry)
    → ((r : Status × Connection) → o ≡ some r → Grown q reg.conn.log r)
    → ((conn : Connection)
        → IsNested conn.log
        → begun conn.log ≡ effect q (begun reg.conn.log)
        → Kept (f conn))
    → Kept reg
    → on_ok f reg o ≡ some (answer, reg')
    → Kept reg'
on_ok-Kept q f reg none answer reg' grown good k e = absurd cc
on_ok-Kept q f reg (some (ok, conn)) answer reg' grown good k e =
    let g = grown (ok, conn) refl in same_result (λ (_, r). Kept r) e (good conn g.0 g.1)
on_ok-Kept q f reg (some (busy, conn)) answer reg' grown good k e =
    Kept-failed reg conn answer reg' (grown (busy, conn) refl) k e
on_ok-Kept q f reg (some (row, conn)) answer reg' grown good k e =
    Kept-failed reg conn answer reg' (grown (row, conn) refl) k e
on_ok-Kept q f reg (some (done, conn)) answer reg' grown good k e =
    Kept-failed reg conn answer reg' (grown (done, conn) refl) k e
on_ok-Kept q f reg (some (failed, conn)) answer reg' grown good k e =
    Kept-failed reg conn answer reg' (grown (failed, conn) refl) k e

start-Kept :
    (q : Statement) (f : Connection → Registry) (reg : Registry) (answer : Answer) (reg' : Registry)
    → Fits q false
    → ((conn : Connection)
        → IsNested conn.log
        → begun conn.log ≡ effect q (begun reg.conn.log)
        → Kept (f conn))
    → Kept reg
    → reg_start q f reg ≡ some (answer, reg')
    → Kept reg'
unfolding reg_start
start-Kept q f reg answer reg' fit good k e = by_flag reg.transacting refl e
  where
    by_flag :
        (b : Bool)
        → reg.transacting ≡ b
        → (if b
            then some (threw misuse, reg)
            else on_ok f reg (ask_until_free (executed q) reg.conn))
          ≡ some (answer, reg')
        → Kept reg'
    by_flag true t e = same_result (λ (_, r). Kept r) e k
    by_flag false t e =
        on_ok-Kept q f reg (ask_until_free (executed q) reg.conn) answer reg'
          (λ r.
            retry-Grown q reg.conn.outcomes reg.conn.log r (subst (Fits q) (sym (k.1 ∙ t)) fit) k.0)
          good k e

end-Kept :
    (q : Statement) (is_rollback : Bool) (reg : Registry) (answer : Answer) (reg' : Registry)
    → Fits q true
    → effect q true ≡ false
    → Kept reg
    → reg_end q is_rollback reg ≡ some (answer, reg')
    → Kept reg'
unfolding reg_end
end-Kept q is_rollback reg answer reg' fit off k e = by_flag reg.transacting refl e
  where
    asked : Option (Status × Connection)
    asked = if is_rollback then ask (executed q) reg.conn else ask_until_free (executed q) reg.conn

    ended : Connection → Registry
    ended conn = record reg { conn = conn; transacting = false; can_write = false }

    grown :
        (b : Bool)
        → Fits q (begun reg.conn.log)
        → (r : Status × Connection)
        → (if b then ask (executed q) reg.conn else ask_until_free (executed q) reg.conn) ≡ some r
        → Grown q reg.conn.log r
    grown true fits r = ask-Grown q reg.conn r fits k.0
    grown false fits r = retry-Grown q reg.conn.outcomes reg.conn.log r fits k.0

    by_flag :
        (b : Bool)
        → reg.transacting ≡ b
        → (if b then on_ok ended reg asked else some (threw misuse, reg)) ≡ some (answer, reg')
        → Kept reg'
    by_flag false t e = same_result (λ (_, r). Kept r) e k
    by_flag true t e =
        on_ok-Kept q ended reg asked answer reg'
          (grown is_rollback (subst (Fits q) (sym (k.1 ∙ t)) fit))
          (λ conn n o. (n, o ∙ ap (effect q) (k.1 ∙ t) ∙ off, λ w. w)) k e

module _ (reg : Registry) (answer : Answer) (reg' : Registry) (k : Kept reg) where
  detached-Kept :
      (o : Option (Status × Connection))
      → ((r : Status × Connection) → o ≡ some r → Same reg.conn.log r)
      → (o >>= detached reg) ≡ some (answer, reg')
      → Kept reg'
  detached-Kept none h e = absurd cc
  detached-Kept (some (ok, conn)) h e =
      let g = h (ok, conn) refl in same_result (λ (_, r). Kept r) e (g.0, g.1 ∙ k.1, k.2)
  detached-Kept (some (busy, conn)) h e = Kept-failed reg conn answer reg' (h (busy, conn) refl) k e
  detached-Kept (some (row, conn)) h e = Kept-failed reg conn answer reg' (h (row, conn) refl) k e
  detached-Kept (some (done, conn)) h e = Kept-failed reg conn answer reg' (h (done, conn) refl) k e
  detached-Kept (some (failed, conn)) h e =
      Kept-failed reg conn answer reg' (h (failed, conn) refl) k e

  prepared-Kept :
      (o : Option (Status × Connection))
      → ((r : Status × Connection) → o ≡ some r → Same reg.conn.log r)
      → (o >>= detach_prepared reg) ≡ some (answer, reg')
      → Kept reg'
  prepared-Kept none h e = absurd cc
  prepared-Kept (some (ok, conn)) h e =
      let g = h (ok, conn) refl in
      detached-Kept (ask_until_free (executed detach_database) conn)
        (λ r j. let g' = retry-Same conn.outcomes conn.log r g.0 j in (g'.0, g'.1 ∙ g.1)) e
  prepared-Kept (some (busy, conn)) h e = Kept-failed reg conn answer reg' (h (busy, conn) refl) k e
  prepared-Kept (some (row, conn)) h e = Kept-failed reg conn answer reg' (h (row, conn) refl) k e
  prepared-Kept (some (done, conn)) h e = Kept-failed reg conn answer reg' (h (done, conn) refl) k e
  prepared-Kept (some (failed, conn)) h e =
      Kept-failed reg conn answer reg' (h (failed, conn) refl) k e

  detach-Kept : reg_detach reg ≡ some (answer, reg') → Kept reg'
  unfolding reg_detach
  detach-Kept e = by_flag reg.attached e
    where
      by_flag :
          (b : Bool)
          → (if b
              then ask (prepared detach_database) reg.conn >>= detach_prepared reg
              else some (threw misuse, reg))
            ≡ some (answer, reg')
          → Kept reg'
      by_flag false e = same_result (λ (_, r). Kept r) e k
      by_flag true e =
          prepared-Kept (ask (prepared detach_database) reg.conn)
            (λ r. ask-Same detach_database reg.conn r k.0) e

run-Kept :
    (o : Operation) (reg : Registry) (answer : Answer) (reg' : Registry)
    → Kept reg
    → run o reg ≡ some (answer, reg')
    → Kept reg'
unfolding reg_start_read reg_start_write reg_commit reg_rollback
run-Kept start_read reg answer reg' k e =
    start-Kept begin (λ conn. record reg { conn = conn; transacting = true }) reg answer reg' refl
      (λ conn n o. (n, o, λ w. refl)) k e
run-Kept start_write reg answer reg' k e =
    start-Kept begin_immediate
      (λ conn. record reg { conn = conn; transacting = true; can_write = true }) reg answer reg'
      refl (λ conn n o. (n, o, λ w. refl)) k e
run-Kept end_commit reg answer reg' k e = end-Kept commit false reg answer reg' refl refl k e
run-Kept end_rollback reg answer reg' k e = end-Kept rollback true reg answer reg' refl refl k e
run-Kept detach reg answer reg' k e = detach-Kept reg answer reg' k e

pub run_all-Kept :
    (os : List Operation) (reg reg' : Registry) → Kept reg → run_all os reg ≡ some reg' → Kept reg'
run_all-Kept [] reg reg' k e = same_result Kept e k
run_all-Kept (o ∷ os) reg reg' k e = each (run o reg) refl (λ reg₁. run_all-Kept os reg₁ reg') e
  where
    each :
        (d : Done)
        → run o reg ≡ d
        → ((reg₁ : Registry) → Kept reg₁ → run_all os reg₁ ≡ some reg' → Kept reg')
        → (d >>= λ (answer, reg₁). run_all os reg₁) ≡ some reg'
        → Kept reg'
    each none j next e = absurd cc
    each (some (answer, reg₁)) j next e = next reg₁ (run-Kept o reg answer reg₁ k j) e
