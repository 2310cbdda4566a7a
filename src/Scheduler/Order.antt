-- ===== src/Scheduler/Order.antt =====
-- When the executor is told to stop the traffic.
use st_tools.Prelude.{
  suc, ◌≡◌, ◌⊎◌, refl, ap, ◌∙◌, Bool, true, false, List, [], ◌∷◌, ◌++◌, inl, inr, All,
  if◌then◌else◌,
}
use st_tools.Prelude.Exec.{Result, ok, err, run_error}
use st_tools.Scheduler.{
  Phase, preexec, loadgen, postexec, Event, request_stop_phase, Scheduler, Visit, emit, Outcome,
  pending, done, missing, failed, visit, shutdown, is_loadgen, refresh_loop, refresh,
}
use st_tools.Scheduler.Slots.{IsOut, stops, visit-Quiet, All-IsOut, visit-done}

-- Nothing is said, or a stop, once, in the phase of the load and with all slots over.
abbrev pub Halts : List Visit → List Visit → Scheduler → Scheduler → Type 0
Halts ws vs s t =
    (stops t.sent ≡ stops s.sent)
    ⊎ ((stops t.sent ≡ suc (stops s.sent))
        × (t.phase ≡ loadgen)
        × All (IsOut t) ws
        × All (IsOut t) vs)

stops-stop : (l : List Event) → stops (l ++ request_stop_phase ∷ []) ≡ suc (stops l)
unfolding stops
stops-stop [] = refl
stops-stop (request_stop_phase ∷ l) = ap suc (stops-stop l)
stops-stop (e ∷ l) = stops-stop l

loop_end-Halts :
    (np : Bool) (ws : List Visit) (p : Phase) (s : Scheduler)
    → s.phase ≡ p
    → (np ≡ true → All (IsOut s) ws)
    → Halts ws [] s (if np then (if is_loadgen p then emit request_stop_phase s else s) else s)
loop_end-Halts false ws p s e h = inl refl
loop_end-Halts true ws loadgen s e h = inr (stops-stop s.sent, e, h refl, tt)
loop_end-Halts true ws preexec s e h = inl refl
loop_end-Halts true ws postexec s e h = inl refl

-- One more visit came before.
Halts-visit :
    (v : Visit) (ws vs : List Visit) (s u t : Scheduler)
    → stops u.sent ≡ stops s.sent
    → Halts (v ∷ ws) vs u t
    → Halts ws (v ∷ vs) s t
Halts-visit v ws vs s u t e (inl f) = inl (f ∙ e)
Halts-visit v ws vs s u t e (inr (f, p, a, b)) = inr (f ∙ ap suc e, p, a.1, (a.0, b))

outcome-Halts :
    (o : Outcome) (v : Visit) (ws vs : List Visit) (s u : Scheduler)
    (a b : Result (Unit {0}) × Scheduler)
    → stops u.sent ≡ stops s.sent
    → Halts (v ∷ ws) vs u a.1
    → (o ≡ done → Halts (v ∷ ws) vs u b.1)
    → Halts ws
        (v ∷ vs)
        s
        (elim o as (λ x. Result (Unit {0}) × Scheduler) [
          | pending ↦ a
          | done ↦ b
          | missing ↦ (ok tt, u)
          | failed ↦ (err run_error, shutdown u)
        ]).1
unfolding shutdown
outcome-Halts pending v ws vs s u a b e h k = Halts-visit v ws vs s u a.1 e h
outcome-Halts done v ws vs s u a b e h k = Halts-visit v ws vs s u b.1 e (k refl)
outcome-Halts missing v ws vs s u a b e h k = inl e
outcome-Halts failed v ws vs s u a b e h k = inl e

refresh_loop-Halts :
    (np : Bool) (ws vs : List Visit) (s : Scheduler)
    → (np ≡ true → All (IsOut s) ws)
    → Halts ws vs s (refresh_loop np vs s).1
unfolding refresh_loop
refresh_loop-Halts np ws [] s h = loop_end-Halts np ws s.phase s refl h
refresh_loop-Halts np ws (v ∷ vs) s h =
    let u = (visit v s).1 in
    outcome-Halts (visit v s).0 v ws vs s u (refresh_loop false vs u) (refresh_loop np vs u)
      (visit-Quiet v s).0 (refresh_loop-Halts false (v ∷ ws) vs u (λ e. cc))
      (λ d. refresh_loop-Halts np (v ∷ ws) vs u (λ e. (visit-done v s d, All-IsOut v ws s (h e))))

abbrev Stops : List Visit → Scheduler → Scheduler → Type 0
Stops vs s t =
    (stops t.sent ≡ stops s.sent)
    ⊎ ((stops t.sent ≡ suc (stops s.sent)) × (t.phase ≡ loadgen) × All (IsOut t) vs)

loop-Stops : (vs : List Visit) (s : Scheduler) → Stops vs s (refresh_loop true vs s).1
loop-Stops vs s = elim (refresh_loop-Halts true [] vs s (λ f. tt)) [
  | inl h ↦ inl h
  | inr (n, p, a, b) ↦ inr (n, p, b)
]

refresh_if-Stops :
    (b : Bool) (vs : List Visit) (s : Scheduler)
    → Stops vs s (if b then refresh_loop true vs s else (ok tt, s)).1
refresh_if-Stops true vs s = loop-Stops vs s
refresh_if-Stops false vs s = inl refl

-- A refresh tells the executor at most once to stop the phase, and only in the phase of the load and
-- when no visited BAT instance has a slot left.
pub refresh-stops :
    (vs : List Visit) (s : Scheduler)
    → let t = (refresh vs s).1 in
      (stops t.sent ≡ stops s.sent)
      ⊎ ((stops t.sent ≡ suc (stops s.sent)) × (t.phase ≡ loadgen) × All (IsOut t) vs)
unfolding refresh
refresh-stops [] s = inl refl
refresh-stops (v ∷ vs) s = refresh_if-Stops s.cps_scheduling (v ∷ vs) s
