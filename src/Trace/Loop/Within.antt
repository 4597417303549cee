-- ===== src/Trace/Loop/Within.antt =====
-- The slots for sockets over a run of `TracelibRunCmd` of src/pextlib1.0/tracelib.c.
use mac_ports_fork.CString.{Bytes}
use mac_ports_fork.Prelude.{
  ◌>>=◌, same_result, ℕ, suc, ◌-◌, ◌≤◌, ◌≡◌, refl, ap, List, [], ◌∷◌, Option, none, some, Bool,
  true, false, ◌==◌, ◌||◌, if◌then◌else◌, arith, length,
}
use mac_ports_fork.Trace.Loop.{
  max_sockets, Arrival, nobody, refused, arrived, Event, arrive, skips, Served, in_front, serve_one,
  serve_all, one_wait,
}
use mac_ports_fork.Trace.Messages.{Effect}
use mac_ports_fork.Trace.Server.{Settings, Tracelib}
use mac_ports_fork.Trace.Loop.Slots.{length-store}

module _ (settings : Settings) (file_registered : Bytes → Bytes) where
  -- As many slots as before.
  abbrev AsLong : List ℕ → List ℕ × Tracelib × List Effect → Type 0
  AsLong socks (socks', tl, effects) = length socks' ≡ length socks

  in_front-AsLong :
      (s t : ℕ) (effects : List Effect) (socks : List ℕ) (o : Served settings file_registered)
      (r : List ℕ × Tracelib × List Effect)
      → ((r' : List ℕ × Tracelib × List Effect) → o ≡ some r' → AsLong socks r')
      → in_front settings file_registered s effects o ≡ some r
      → AsLong (t ∷ socks) r
  in_front-AsLong s t effects socks none r h e = absurd cc
  in_front-AsLong s t effects socks (some r') r h e =
      same_result (AsLong (t ∷ socks)) e (ap suc (h r' refl))

  serve_all-AsLong :
      (ready : ℕ → Option (Option Bytes × Bytes)) (socks : List ℕ) (tl : Tracelib)
      (r : List ℕ × Tracelib × List Effect)
      → serve_all settings file_registered ready socks tl ≡ some r
      → AsLong socks r
  unfolding serve_all
  serve_all-AsLong ready [] tl r e = same_result (AsLong []) e refl
  serve_all-AsLong ready (s ∷ socks) tl r e =
      first (serve_one settings file_registered s (if s == 0 then none else ready s) tl)
        (λ tl' r'. serve_all-AsLong ready socks tl' r') e
    where
      first :
          (o : Option (ℕ × Tracelib × List Effect))
          → ((tl' : Tracelib) (r' : List ℕ × Tracelib × List Effect)
              → serve_all settings file_registered ready socks tl' ≡ some r'
              → AsLong socks r')
          → (o >>= λ (s', tl', effects).
              in_front settings file_registered s' effects
                (serve_all settings file_registered ready socks tl'))
            ≡ some r
          → AsLong (s ∷ socks) r
      first none next e = absurd cc
      first (some (s', tl', effects)) next e =
          in_front-AsLong s' s effects socks (serve_all settings file_registered ready socks tl') r
            (next tl') e

  abbrev pub IsWithin : List ℕ × Tracelib × List Effect → Type 0
  IsWithin (socks, tl, effects) = length socks ≤ max_sockets - 1

  length-arrive :
      (a : Arrival) (socks : List ℕ)
      → length socks ≤ max_sockets - 1
      → length (arrive a socks) ≤ max_sockets - 1
  length-arrive nobody socks h = h
  length-arrive refused socks h = h
  length-arrive (arrived s) socks h = length-store s socks h

  one_wait-IsWithin :
      (event : Event) (socks : List ℕ) (tl : Tracelib) (r : List ℕ × Tracelib × List Effect)
      → length socks ≤ max_sockets - 1
      → one_wait settings file_registered event socks tl ≡ some r
      → IsWithin r
  unfolding one_wait
  one_wait-IsWithin event socks tl r h e = by_flag (event.fails || skips event.arrival) e
    where
      by_flag :
          (b : Bool)
          → (if b
              then some (socks, tl, [])
              else serve_all settings file_registered event.ready (arrive event.arrival socks) tl)
            ≡ some r
          → IsWithin r
      by_flag true e = same_result IsWithin e h
      by_flag false e =
          let long = serve_all-AsLong event.ready (arrive event.arrival socks) tl r e in
          omega (arith, long, length-arrive event.arrival socks h)

  -- The slots behind a number of waits.
  abbrev pub waits : List Event → List ℕ → Tracelib → Served settings file_registered
  waits [] socks tl = some (socks, tl, [])
  waits (event ∷ events) socks tl =
      one_wait settings file_registered event socks tl >>= λ (socks', tl', effects).
      waits events socks' tl'

  IsWithin-waits :
      (events : List Event) (socks : List ℕ) (tl : Tracelib) (r : List ℕ × Tracelib × List Effect)
      → length socks ≤ max_sockets - 1
      → waits events socks tl ≡ some r
      → IsWithin r
  IsWithin-waits [] socks tl r h e = same_result IsWithin e h
  IsWithin-waits (event ∷ events) socks tl r h e =
      first (one_wait settings file_registered event socks tl) refl
        (λ socks' tl'. IsWithin-waits events socks' tl' r) e
    where
      first :
          (o : Served settings file_registered)
          → one_wait settings file_registered event socks tl ≡ o
          → ((socks' : List ℕ) (tl' : Tracelib)
              → length socks' ≤ max_sockets - 1
              → waits events socks' tl' ≡ some r
              → IsWithin r)
          → (o >>= λ (socks', tl', effects). waits events socks' tl') ≡ some r
          → IsWithin r
      first none k next e = absurd cc
      first (some (socks', tl', effects)) k next e =
          next socks' tl' (one_wait-IsWithin event socks tl (socks', tl', effects) h k) e

  -- However the connections come, speak and end, the slots in use never pass the end of the array.
  pub length-waits :
      (events : List Event) (socks socks' : List ℕ) (tl tl' : Tracelib) (effects : List Effect)
      → length socks ≤ max_sockets - 1
      → waits events socks tl ≡ some (socks', tl', effects)
      → length socks' ≤ max_sockets - 1
  length-waits events socks socks' tl tl' effects h e =
      IsWithin-waits events socks tl (socks', tl', effects) h e
