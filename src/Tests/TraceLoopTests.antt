-- ===== src/Tests/TraceLoopTests.antt =====
-- The theorems at concrete inputs for the loop of src/pextlib1.0/tracelib.c.
use mac_ports_fork.CString.{Bytes}
use mac_ports_fork.Prelude.{
  ℕ, List, ◌≤◌, ◌≡◌, refl, [], ◌∷◌, none, some, true, false, arith, length,
}
use mac_ports_fork.Trace.Loop.{arrived, Event, one_wait}
use mac_ports_fork.Trace.Loop.Within.{waits, length-waits}
use mac_ports_fork.Trace.Server.{Settings, Tracelib}

abbrev settings : Settings
settings = record { prefix = none; developer_dir = none; sdk = [] }

abbrev of_no_port : Bytes → Bytes
of_no_port path = b'0' ∷ []

abbrev closed : Tracelib
closed = record {
  name = none;
  sandbox = none;
  filemap = none;
  depends = none;
  listening = false;
  enable_fence = false;
  cleanuping = true;
}

-- A connection comes, and nothing is said.
abbrev connects : Event
connects = record { ended = false; fails = false; arrival = arrived 5; ready = λ s. none }

connected : waits settings of_no_port (connects ∷ []) [] closed ≡ some (5 ∷ [], closed, [])
unfolding one_wait
connected = refl

abbrev one_slot : List ℕ
one_slot = 5 ∷ []

length-waits_example : length one_slot ≤ 1022
length-waits_example =
    length-waits settings of_no_port (connects ∷ []) [] one_slot closed closed [] (omega arith)
      connected
