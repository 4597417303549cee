-- ===== src/Registry/Schema/Queries.antt =====
-- What `do_queries` of src/cregistry/sql.c has run when it returns.
use mac_ports_fork.Prelude.{
  same_result, ◌>>=◌, ℕ, suc, ◌<◌, ◌≡◌, refl, ap, ◌∙◌, List, [], ◌∷◌, some, length, take,
  if◌then◌else◌, arith,
}
use mac_ports_fork.Registry.Connection.{
  Status, ok, busy, row, done, failed, Statement, prepared, ran, Log, Connection, ask, retry,
}
use mac_ports_fork.Registry.Schema.{Ran, judged, stepped, do_queries}
use mac_ports_fork.Registry.Transactions.{sqlite_error, Answer, success, threw}

-- The statements that were stepped to a row or to their end, the last one first.
abbrev pub completed : Log → List Statement
completed [] = []
completed ((ran q, row) ∷ log) = q ∷ completed log
completed ((ran q, done) ∷ log) = q ∷ completed log
completed (_ ∷ log) = completed log

abbrev pub onto : List Statement → List Statement → List Statement
onto [] qs = qs
onto (p ∷ ps) qs = onto ps (p ∷ qs)

-- All of the queries ran, or those in front of one that did not.
abbrev pub Progress : List Statement → Log → Answer × Connection → Type 0
Progress qs log (success, conn) = completed conn.log ≡ onto qs (completed log)
Progress qs log (threw error, conn) =
    (n : ℕ) × (n < length qs)
    × (error ≡ sqlite_error)
    × (completed conn.log ≡ onto (take n qs) (completed log))

-- What SQLite's documentation says of results: a step never gives SQLITE_OK, and to prepare a
-- statement gives no row and no end.
abbrev pub IsDocumented : Log → Type 0
IsDocumented [] = Unit
IsDocumented ((ran q, ok) ∷ log) = ⊥
IsDocumented ((prepared q, row) ∷ log) = ⊥
IsDocumented ((prepared q, done) ∷ log) = ⊥
IsDocumented (_ ∷ log) = IsDocumented log

abbrev Both : List Statement → Log → Answer × Connection → Type 0
Both qs log (answer, conn) = IsDocumented conn.log → Progress qs log (answer, conn)

-- The step of a query, with the queries behind it.
module _ (q : Statement) (qs : List Statement) (log₀ : Log) (r : Answer × Connection) where
  abbrev behind_step : Status × Connection → Ran
  behind_step (step, conn) =
      let next = do_queries qs conn in if stepped step then next else judged (step, conn)

  -- One query more, and then as far as the others came.
  one_more :
      (log : Log)
      → completed log ≡ q ∷ completed log₀
      → Progress qs log r
      → Progress (q ∷ qs) log₀ r
  one_more log c p = by_answer r.0 p
    where
      by_answer : (a : Answer) → Progress qs log (a, r.1) → Progress (q ∷ qs) log₀ (a, r.1)
      by_answer success p = p ∙ ap (onto qs) c
      by_answer (threw error) (n, l, s, p) =
          (suc n, omega (arith, l), s, p ∙ ap (onto (take n qs)) c)

  retry-Progress :
      (outcomes : List Status) (log : Log)
      → completed log ≡ completed log₀
      → ((conn : Connection) → do_queries qs conn ≡ some r → Both qs conn.log r)
      → (retry (ran q) outcomes log >>= behind_step) ≡ some r
      → Both (q ∷ qs) log₀ r
  unfolding retry
  retry-Progress [] log c next e = absurd cc
  retry-Progress (busy ∷ later) log c next e = retry-Progress later ((ran q, busy) ∷ log) c next e
  retry-Progress (ok ∷ later) log c next e = same_result (Both (q ∷ qs) log₀) e (λ d. absurd d)
  retry-Progress (row ∷ later) log c next e =
      let conn : Connection = record { outcomes = later; log = (ran q, row) ∷ log } in
      λ d. one_more conn.log (ap (λ ps. q ∷ ps) c) (next conn e d)
  retry-Progress (done ∷ later) log c next e =
      let conn : Connection = record { outcomes = later; log = (ran q, done) ∷ log } in
      λ d. one_more conn.log (ap (λ ps. q ∷ ps) c) (next conn e d)
  retry-Progress (failed ∷ later) log c next e =
      same_result (Both (q ∷ qs) log₀) e (λ d. (0, omega arith, refl, c))

-- When `do_queries` returns, on documented results of SQLite, either all of the queries have run, in
-- their order, and it succeeds; or exactly those in front of one that failed, and it throws an error
-- of SQLite.
pub do_queries-Progress :
    (qs : List Statement) (conn : Connection) (r : Answer × Connection)
    → do_queries qs conn ≡ some r
    → IsDocumented r.1.log
    → Progress qs conn.log r
unfolding do_queries
do_queries-Progress [] conn r e = same_result (Both [] conn.log) e (λ d. refl)
do_queries-Progress (q ∷ qs) conn r e =
    by_outcomes conn.outcomes (λ conn'. do_queries-Progress qs conn' r) e
  where
    by_outcomes :
        (os : List Status)
        → ((conn' : Connection) → do_queries qs conn' ≡ some r → Both qs conn'.log r)
        → do_queries (q ∷ qs) (record conn { outcomes = os }) ≡ some r
        → Both (q ∷ qs) conn.log r
    by_outcomes [] next e = absurd (unfold ask in cc)
    by_outcomes (ok ∷ later) next e =
        retry-Progress q qs conn.log r later ((prepared q, ok) ∷ conn.log) refl next e
    by_outcomes (busy ∷ later) next e =
        same_result (Both (q ∷ qs) conn.log) e (λ d. (0, omega arith, refl, refl))
    by_outcomes (row ∷ later) next e = same_result (Both (q ∷ qs) conn.log) e (λ d. absurd d)
    by_outcomes (done ∷ later) next e = same_result (Both (q ∷ qs) conn.log) e (λ d. absurd d)
    by_outcomes (failed ∷ later) next e =
        same_result (Both (q ∷ qs) conn.log) e (λ d. (0, omega arith, refl, refl))
