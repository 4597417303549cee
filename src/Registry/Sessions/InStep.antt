-- ===== src/Registry/Sessions/InStep.antt =====
-- The flags of a registry of src/cregistry/registry.c against the transactions of SQLite, which may
-- roll one back on its own where a statement fails, as it documents for a full disk, an I/O error,
-- a want of memory, a busy database and an interrupt.
use mac_ports_fork.Prelude.{
  ◌≡◌, refl, sym, ◌∙◌, List, [], ◌∷◌, some, Bool, true, false, not, ◌&&◌, ◌||◌, Bool-cases, arith,
  ◌⊎◌, inl, inr,
}
use mac_ports_fork.Registry.Connection.{
  Status, ok, busy, row, done, failed, Statement, begin, begin_immediate, commit, rollback, Call,
  prepared, ran, executed, Log,
}
use mac_ports_fork.Registry.Sessions.{
  effect, after, after_step, begun, Fits, IsNested, Kept, Operation, run_all,
}
use mac_ports_fork.Registry.Sessions.Kept.{run_all-Kept}
use mac_ports_fork.Registry.Transactions.{Registry}

abbrev left_open : Call × Status → Bool → Bool
left_open (executed q, s) b = after s q b
left_open (ran q, s) b = after_step s q b
left_open _ b = b

abbrev is_start : Statement → Bool
is_start begin = true
is_start begin_immediate = true
is_start _ = false

abbrev begins : Call × Status → Bool
begins (executed q, ok) = is_start q
begins (ran q, done) = is_start q
begins _ = false

abbrev Starts : Statement → Bool → Type 0
Starts begin b = b ≡ false
Starts begin_immediate b = b ≡ false
Starts _ b = Unit

-- Where SQLite has rolled back on its own: whether it did so behind the last call of a log, before
-- the next one.
module _ (rolled : Log → Bool) where
  -- Whether a transaction is open in SQLite.
  abbrev pub is_open : Log → Bool
  is_open [] = false
  is_open (entry ∷ log) = not (rolled (entry ∷ log)) && left_open entry (is_open log)

  -- Whether it has rolled back on its own since the last transaction was begun.
  abbrev pub rolled_back : Log → Bool
  rolled_back [] = false
  rolled_back (entry ∷ log) = rolled (entry ∷ log) || (not (begins entry) && rolled_back log)

  -- No transaction was begun within another.
  abbrev pub BeginsApart : Log → Type 0
  BeginsApart [] = Unit
  BeginsApart ((executed q, s) ∷ log) = Starts q (is_open log) × BeginsApart log
  BeginsApart ((ran q, s) ∷ log) = Starts q (is_open log) × BeginsApart log
  BeginsApart ((prepared q, s) ∷ log) = BeginsApart log

  abbrev pub InStep : Registry → Type 0
  InStep reg =
      BeginsApart reg.conn.log
      × (is_open reg.conn.log ≡ true → reg.transacting ≡ true)
      × (reg.transacting ≡ true → (is_open reg.conn.log ≡ true) ⊎ (rolled_back reg.conn.log ≡ true))
      × (reg.can_write ≡ true → reg.transacting ≡ true)

  effect_mono :
      (q : Statement) (x y : Bool) → (x ≡ true → y ≡ true) → effect q x ≡ true → effect q y ≡ true
  effect_mono begin x y h e = refl
  effect_mono begin_immediate x y h e = refl
  effect_mono commit x y h e = e
  effect_mono rollback x y h e = e
  effect_mono _ x y h e = h e

  left_open_mono :
      (entry : Call × Status) (x y : Bool)
      → (x ≡ true → y ≡ true)
      → left_open entry x ≡ true
      → left_open entry y ≡ true
  left_open_mono (executed q, ok) x y h e = effect_mono q x y h e
  left_open_mono (executed q, busy) x y h e = h e
  left_open_mono (executed q, row) x y h e = h e
  left_open_mono (executed q, done) x y h e = h e
  left_open_mono (executed q, failed) x y h e = h e
  left_open_mono (prepared q, s) x y h e = h e
  left_open_mono (ran q, done) x y h e = effect_mono q x y h e
  left_open_mono (ran q, ok) x y h e = h e
  left_open_mono (ran q, busy) x y h e = h e
  left_open_mono (ran q, row) x y h e = h e
  left_open_mono (ran q, failed) x y h e = h e

  left_open-begun :
      (entry : Call × Status) (log : Log) → begun (entry ∷ log) ≡ left_open entry (begun log)
  left_open-begun (executed q, s) log = refl
  left_open-begun (prepared q, s) log = refl
  left_open-begun (ran q, s) log = refl

  begun-is_open : (log : Log) → is_open log ≡ true → begun log ≡ true
  begun-is_open [] e = absurd cc
  begun-is_open (entry ∷ log) e = elim (Bool-cases (rolled (entry ∷ log))) [
    | inl r ↦ absurd (ground arith)
    | inr n ↦
        left_open-begun entry log
        ∙ left_open_mono entry (is_open log) (begun log) (begun-is_open log) (ground arith)
  ]

  -- An entry keeps an open transaction, or begins one.
  left_open_kept :
      (entry : Call × Status) (x y r : Bool)
      → (x ≡ true → (y ≡ true) ⊎ (r ≡ true))
      → left_open entry x ≡ true
      → (left_open entry y ≡ true) ⊎ ((not (begins entry) && r) ≡ true)
  left_open_kept (executed begin, ok) x y r h e = inl refl
  left_open_kept (executed begin_immediate, ok) x y r h e = inl refl
  left_open_kept (executed commit, ok) x y r h e = absurd cc
  left_open_kept (executed rollback, ok) x y r h e = absurd cc
  left_open_kept (executed _, ok) x y r h e = h e
  left_open_kept (executed q, busy) x y r h e = h e
  left_open_kept (executed q, row) x y r h e = h e
  left_open_kept (executed q, done) x y r h e = h e
  left_open_kept (executed q, failed) x y r h e = h e
  left_open_kept (prepared q, s) x y r h e = h e
  left_open_kept (ran begin, done) x y r h e = inl refl
  left_open_kept (ran begin_immediate, done) x y r h e = inl refl
  left_open_kept (ran commit, done) x y r h e = absurd cc
  left_open_kept (ran rollback, done) x y r h e = absurd cc
  left_open_kept (ran _, done) x y r h e = h e
  left_open_kept (ran q, ok) x y r h e = h e
  left_open_kept (ran q, busy) x y r h e = h e
  left_open_kept (ran q, row) x y r h e = h e
  left_open_kept (ran q, failed) x y r h e = h e

  is_open-begun : (log : Log) → begun log ≡ true → (is_open log ≡ true) ⊎ (rolled_back log ≡ true)
  is_open-begun [] e = absurd cc
  is_open-begun (entry ∷ log) e = elim (Bool-cases (rolled (entry ∷ log))) [
    | inl r ↦ inr (rw r refl)
    | inr n ↦ rw n (
        left_open_kept entry (begun log) (is_open log) (rolled_back log) (is_open-begun log)
          (sym (left_open-begun entry log) ∙ e))
  ]

  not_open : (log : Log) → begun log ≡ false → is_open log ≡ false
  not_open log e = elim (Bool-cases (is_open log)) [
    | inl y ↦ absurd (cc (e, begun-is_open log y))
    | inr n ↦ n
  ]

  Starts-Fits : (q : Statement) (log : Log) → Fits q (begun log) → Starts q (is_open log)
  Starts-Fits begin log f = not_open log f
  Starts-Fits begin_immediate log f = not_open log f
  Starts-Fits _ log f = tt

  BeginsApart-IsNested : (log : Log) → IsNested log → BeginsApart log
  BeginsApart-IsNested [] n = tt
  BeginsApart-IsNested ((executed q, s) ∷ log) n =
      (Starts-Fits q log n.0, BeginsApart-IsNested log n.1)
  BeginsApart-IsNested ((prepared q, s) ∷ log) n = BeginsApart-IsNested log n
  BeginsApart-IsNested ((ran q, s) ∷ log) n = (Starts-Fits q log n.0, BeginsApart-IsNested log n.1)

  InStep-Kept : (reg : Registry) → Kept reg → InStep reg
  InStep-Kept reg (nested, same, write) = (
    BeginsApart-IsNested reg.conn.log nested,
    λ o. sym same ∙ begun-is_open reg.conn.log o,
    λ t. is_open-begun reg.conn.log (same ∙ t),
    write,
  )

  -- From a registry whose flags say what the statements that have worked say, however starts, ends
  -- and the detaching follow on each other, whatever SQLite answers and wherever it rolls back on
  -- its own: the flags still say so, and an end was only sent behind a start that worked and has not
  -- been ended; a transaction that is open in SQLite is flagged; one that is flagged is open, or
  -- SQLite has rolled back on its own since it was begun; a registry that can be written to is in a
  -- transaction; and none was begun within another.
  pub run_all-InStep :
      (os : List Operation) (reg reg' : Registry)
      → Kept reg
      → run_all os reg ≡ some reg'
      → Kept reg' × InStep reg'
  run_all-InStep os reg reg' k e =
      let kept = run_all-Kept os reg reg' k e in (kept, InStep-Kept reg' kept)
