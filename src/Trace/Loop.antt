-- ===== src/Trace/Loop.antt =====
-- `TracelibRunCmd` of src/pextlib1.0/tracelib.c: the loop that waits on the sockets. Each wait of
-- `select` is an event. `none` is as in Trace/Messages.
pub mod Slots
pub mod Within
use mac_ports_fork.CString.{Bytes}
use mac_ports_fork.Prelude.{
  ◌>>=◌, ℕ, zero, suc, ◌-◌, List, [], ◌∷◌, ◌++◌, Option, none, some, Bool, true, false, ◌==◌, ◌||◌,
  not, if◌then◌else◌, length,
}
use mac_ports_fork.Trace.Messages.{Effect, process_line}
use mac_ports_fork.Trace.Server.{Settings, Tracelib}

-- FD_SETSIZE - 1, with an FD_SETSIZE of 1024.
abbrev pub max_sockets : ℕ
max_sockets = 1023

-- What `accept` gives, if a connection waits: a socket, or a failure.
pub data Arrival : Type 0 where
  nobody refused : Arrival
  arrived : ℕ → Arrival

-- What `select` finds: it fails, or there is an arrival, and for each socket that is ready what
-- `recv` gives and what waits behind it. Before it, another thread may have closed the server's
-- socket or be cleaning up.
pub record Event : Type 0 where
  pub ended : Bool
  pub fails : Bool
  pub arrival : Arrival
  pub ready : ℕ → Option (Option Bytes × Bytes)

-- The first free slot, which holds 0, is taken.
unfoldable pub reuse_slot : ℕ → List ℕ → Option (List ℕ)
reuse_slot s [] = none
reuse_slot s (t ∷ socks) = elim (t == 0) [
  | true ↦ some (s ∷ socks)
  | false ↦ elim (reuse_slot s socks) [ none ↦ none | some socks' ↦ some (t ∷ socks') ]
]

-- A new socket is stored; without a place for it, it is closed.
unfoldable pub store : ℕ → List ℕ → List ℕ
unfolding reuse_slot
store s socks = elim (reuse_slot s socks) [
  | some socks' ↦ socks'
  | none ↦ if length socks == max_sockets - 1 then socks else socks ++ s ∷ []
]

abbrev pub arrive : Arrival → List ℕ → List ℕ
arrive nobody socks = socks
arrive refused socks = socks
arrive (arrived s) socks = store s socks

abbrev pub skips : Arrival → Bool
skips refused = true
skips _ = false

-- The sockets, the state, what is done, and the bytes that are left are threaded through.
module _ (settings : Settings) (file_registered : Bytes → Bytes) where
  abbrev pub Served : Type 0
  Served = Option (List ℕ × Tracelib × List Effect)

  abbrev pub in_front : ℕ → List Effect → Served → Served
  in_front s effects none = none
  in_front s effects (some (socks, tl, more)) = some (s ∷ socks, tl, effects ++ more)

  abbrev pub serve_one :
      ℕ → Option (Option Bytes × Bytes) → Tracelib → Option (ℕ × Tracelib × List Effect)
  serve_one s none tl = some (s, tl, [])
  serve_one s (some (received, waiting)) tl = do
    (keeps, tl', effects, rest) ← process_line settings file_registered received waiting tl
    some (if keeps then s else 0, tl', effects)

  -- The loop over the slots: a socket whose connection has ended is closed, its slot is free.
  unfoldable pub serve_all : (ℕ → Option (Option Bytes × Bytes)) → List ℕ → Tracelib → Served
  unfolding process_line
  serve_all ready [] tl = some ([], tl, [])
  serve_all ready (s ∷ socks) tl = do
    (s', tl', effects) ← serve_one s (if s == 0 then none else ready s) tl
    in_front s' effects (serve_all ready socks tl')

  -- One wait: whether the loop goes on, and the slots behind it.
  unfoldable pub one_wait : Event → List ℕ → Tracelib → Served
  unfolding store serve_all
  one_wait event socks tl =
      if event.fails || skips event.arrival
      then some (socks, tl, [])
      else serve_all event.ready (arrive event.arrival socks) tl

  -- The whole run; at its end all sockets are closed. Without further events it waits for ever.
  unfoldable pub run_cmd : List Event → List ℕ → Tracelib → Option (Tracelib × List Effect)
  unfolding one_wait
  run_cmd [] socks tl = none
  run_cmd (event ∷ events) socks tl = if event.ended || not tl.listening then some (tl, []) else do
    (socks', tl', effects) ← one_wait event socks tl
    (tl'', more) ← run_cmd events socks' tl'
    some (tl'', effects ++ more)
