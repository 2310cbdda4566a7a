-- ===== src/Bat/Shutdown.antt =====
-- The end of a BAT that is told to stop.
use st_tools.Prelude.{
  ◌≡◌, refl, arith, ℕ, suc, ◌+◌, ◌≤◌, some, Bool, true, false, List, [], ◌∷◌, ◌++◌, if◌then◌else◌,
}
use st_tools.Prelude.Int.{ℤ, pos, ◌-ℤ◌, ltb_ℤ, ◌≤ℤ◌, int_laws, -ℤ_sides}
use st_tools.Bat.Run.{
  Bat, Part, absent, breaks, names, State, unset, starting, running, pending_to_stop, stopping,
  stopped, failed, Output, line, timeout, Event, output, stop_called, Turn, next, left, raised,
  on_output, stop, loop, spend_shutdown, turn_to, stop_traffic,
}
use st_tools.Bat.Ends.{IsLive}

-- The words for which a line is read are in their places.
abbrev pub IsWhole : Part → Type 0
IsWhole breaks = ⊥
IsWhole p = Unit

-- Nothing comes but such lines of output, or nothing at all; `stop` may be called again.
abbrev pub IsSilent : List Event → Type 0
IsSilent [] = Unit
IsSilent (stop_called ∷ l) = IsSilent l
IsSilent (output (timeout ok) t ∷ l) = IsSilent l
IsSilent (output (line d x) t ∷ l) = IsWhole d × IsWhole x × IsSilent l
IsSilent (output o t ∷ l) = ⊥

abbrev pub duration : List Event → ℕ
duration [] = 0
duration (stop_called ∷ l) = duration l
duration (output o t ∷ l) = t + duration l

abbrev pub IsLeft : Turn → Type 0
IsLeft (left b) = b.state ≡ stopping
IsLeft (next b) = ⊥
IsLeft (raised b) = ⊥

-- A turn that may end the loop.
turn-IsLeft :
    (c : Bool) (b : Bat) (l : List Event)
    → b.state ≡ stopping
    → (c ≡ true → IsLeft (loop l b))
    → IsLeft (elim (if c then next b else left b) [
      | next b' ↦ loop l b'
      | left b' ↦ left b'
      | raised b' ↦ raised b'
    ])
turn-IsLeft true b l e f = f refl
turn-IsLeft false b l e f = e

spent : (i : ℤ) (t : ℕ) → i ≤ℤ pos t → ltb_ℤ (pos 0) (i -ℤ pos t) ≡ false
spent i t h = let e = -ℤ_sides i (pos t) in ground (arith, e)

less : (i : ℤ) (t n : ℕ) → i ≤ℤ pos (t + n) → (i -ℤ pos t) ≤ℤ pos n
less i t n h = omega int_laws

longer : (i : ℤ) (m n : ℕ) → i ≤ℤ pos m → m ≤ n → i ≤ℤ pos n
longer i m n h k = omega arith

later :
    (b : Bat) (u : ℕ) (l : List Event) (t : ℕ)
    → b.time_for_shutdown ≤ℤ pos (u + duration l + t)
    → (b.time_for_shutdown -ℤ pos u) ≤ℤ pos (duration l + t)
later b u l t h = omega (int_laws, h)

-- A stop that is asked for again.
again-IsLeft :
    (c : Bool) (x y : Bat) (l : List Event)
    → x ≡ y
    → IsLeft (loop l x)
    → IsLeft (loop l (if c then x else y))
again-IsLeft true x y l e h = h
again-IsLeft false x y l e h = rw (← e) h

told-IsLeft :
    (c : Bool) (x y : Bat) (l : List Event)
    → c ≡ true
    → IsLeft (loop l x)
    → IsLeft (loop l (if c then x else y))
told-IsLeft true x y l e h = h
told-IsLeft false x y l e h = cc

stopping-IsLeft :
    (ok : Bool) (l : List Event) (t : ℕ) (b : Bat)
    → IsSilent l
    → b.time_for_shutdown ≤ℤ pos (duration l + t)
    → IsLeft (loop (l ++ output (timeout ok) t ∷ []) (turn_to stopping b))
unfolding loop on_output stop
stopping-IsLeft ok [] t b q h =
    turn-IsLeft (ltb_ℤ (pos 0) (b.time_for_shutdown -ℤ pos t)) _ [] refl
      (λ e. let f = spent b.time_for_shutdown t (omega (arith, h)) in cc)
stopping-IsLeft ok (stop_called ∷ l) t b q h =
    again-IsLeft b.has_node (turn_to stopping b) (turn_to stopping b)
      (l ++ output (timeout ok) t ∷ []) refl (stopping-IsLeft ok l t b q h)
stopping-IsLeft ok (output (timeout ok') u ∷ l) t b q h =
    turn-IsLeft (ltb_ℤ (pos 0) (b.time_for_shutdown -ℤ pos u)) _ (l ++ output (timeout ok) t ∷ [])
      refl (λ e. stopping-IsLeft ok l t (spend_shutdown u b) q (later b u l t h))
stopping-IsLeft ok (output (line absent absent) u ∷ l) t b q h =
    stopping-IsLeft ok l t (spend_shutdown u b) q.2 (later b u l t h)
stopping-IsLeft ok (output (line absent (names y)) u ∷ l) t b q h =
    stopping-IsLeft ok l t (record (spend_shutdown u b) { loadplotter = some y }) q.2
      (later b u l t h)
stopping-IsLeft ok (output (line (names x) absent) u ∷ l) t b q h =
    stopping-IsLeft ok l t (record (spend_shutdown u b) { diaproxys = b.diaproxys ++ x ∷ [] }) q.2
      (later b u l t h)
stopping-IsLeft ok (output (line (names x) (names y)) u ∷ l) t b q h =
    stopping-IsLeft ok l t
      (record (spend_shutdown u b) { diaproxys = b.diaproxys ++ x ∷ []; loadplotter = some y }) q.2
      (later b u l t h)
stopping-IsLeft ok (output (line breaks y) u ∷ l) t b q h = elim q.0 [ ]
stopping-IsLeft ok (output (line absent breaks) u ∷ l) t b q h = elim q.1 [ ]
stopping-IsLeft ok (output (line (names x) breaks) u ∷ l) t b q h = elim q.1 [ ]
stopping-IsLeft ok (output (Output.alias_sent _) u ∷ l) t b q h = elim q [ ]
stopping-IsLeft ok (output Output.finished u ∷ l) t b q h = elim q [ ]
stopping-IsLeft ok (output Output.traffic_finished u ∷ l) t b q h = elim q [ ]
stopping-IsLeft ok (output Output.main_terminated u ∷ l) t b q h = elim q [ ]
stopping-IsLeft ok (output Output.mc_problem u ∷ l) t b q h = elim q [ ]
stopping-IsLeft ok (output Output.end_of_file u ∷ l) t b q h = elim q [ ]
stopping-IsLeft ok (output Output.interrupt u ∷ l) t b q h = elim q [ ]

-- One silent event, with which a stop that is pending begins.
pending-IsLeft :
    (ok : Bool) (o : Output) (u : ℕ) (l : List Event) (t : ℕ) (b : Bat)
    → IsSilent (output o u ∷ l)
    → b.time_for_shutdown ≤ℤ pos (duration l + t)
    → IsLeft (loop (output o u ∷ l ++ output (timeout ok) t ∷ []) (turn_to pending_to_stop b))
unfolding loop on_output stop_traffic
pending-IsLeft ok (timeout ok') u l t b q h =
    stopping-IsLeft ok l t
      (record b { interrupts_sent = suc b.interrupts_sent; has_monitor = false }) q h
pending-IsLeft ok (line d x) u l t b q h =
    stopping-IsLeft ok l t
      (record b { interrupts_sent = suc b.interrupts_sent; has_monitor = false }) q.2 h
pending-IsLeft ok (Output.alias_sent _) u l t b q h = elim q [ ]
pending-IsLeft ok Output.finished u l t b q h = elim q [ ]
pending-IsLeft ok Output.traffic_finished u l t b q h = elim q [ ]
pending-IsLeft ok Output.main_terminated u l t b q h = elim q [ ]
pending-IsLeft ok Output.mc_problem u l t b q h = elim q [ ]
pending-IsLeft ok Output.end_of_file u l t b q h = elim q [ ]
pending-IsLeft ok Output.interrupt u l t b q h = elim q [ ]

-- After a call of `stop`, in any state of the loop: if run_titansim only writes lines, of which those
-- that say that a diaproxy or a load plotter is up name it in its place, or is silent, and the first
-- timeout after the time for the shutdown comes, then the loop has been left by then, with the BAT
-- stopping. The time counts from the first thing that happens after the call.
pub stop-IsLeft :
    (b : Bat) (o : Output) (u : ℕ) (l : List Event) (t : ℕ) (ok : Bool)
    → IsLive b.state
    → b.has_node ≡ true
    → IsSilent (output o u ∷ l)
    → b.time_for_shutdown ≤ℤ pos (duration l + t)
    → IsLeft (loop (stop_called ∷ output o u ∷ l ++ output (timeout ok) t ∷ []) b)
unfolding loop stop
stop-IsLeft b o u l t ok live node q h = from b.state live
  where
    from :
        (s : State)
        → IsLive s
        → IsLeft (loop (stop_called ∷ output o u ∷ l ++ output (timeout ok) t ∷ []) (turn_to s b))
    from starting h' =
        told-IsLeft b.has_node (turn_to pending_to_stop b) (turn_to starting b)
          (output o u ∷ l ++ output (timeout ok) t ∷ []) node (pending-IsLeft ok o u l t b q h)
    from running h' =
        told-IsLeft b.has_node (turn_to pending_to_stop b) (turn_to running b)
          (output o u ∷ l ++ output (timeout ok) t ∷ []) node (pending-IsLeft ok o u l t b q h)
    from pending_to_stop h' =
        again-IsLeft b.has_node (turn_to pending_to_stop b) (turn_to pending_to_stop b)
          (output o u ∷ l ++ output (timeout ok) t ∷ []) refl (pending-IsLeft ok o u l t b q h)
    from stopping h' =
        again-IsLeft b.has_node (turn_to stopping b) (turn_to stopping b)
          (output o u ∷ l ++ output (timeout ok) t ∷ []) refl
          (stopping-IsLeft ok (output o u ∷ l) t b q
            (longer b.time_for_shutdown (duration l + t) (u + duration l + t) h (omega arith)))
    from unset h' = elim h' [ ]
    from stopped h' = elim h' [ ]
    from failed h' = elim h' [ ]
