-- ===== src/Capacity/Runs.antt =====
-- The search from its beginning: what each refresh keeps, and where it raises.
use mathlib.Core.Path.{subst}
use st_tools.Prelude.{
  ◌≡◌, ◌≢◌, refl, arith, Bool, true, false, not, ◌||◌, List, [], ◌∷◌, ◌-◌, ◌≤◌, if◌then◌else◌, eqb,
  is_some,
}
use st_tools.Prelude.Exec.{Result, ok, err}
use st_tools.Scheduler.{Scheduler, Visit, loadgen, is_loadgen}
use st_tools.Scheduler as Base
use st_tools.Capacity.{
  Capacity, Config, Tools, Reading, Fsm, initial, search, search_down, validate, finished,
}
use st_tools.Capacity.Search.{measure, explore, refresh, start, is_past, sample, is_finished}
use st_tools.Capacity.States.{Moves, stays, IsSound, IfOk, Next, test-IfOk}
use st_tools.Capacity.Invariant.{measure-Next, start_sound}

if-Next :
    (k : Config) (f : Fsm) (b : Bool) (x y : Capacity)
    → Next k f x
    → Next k f y
    → Next k f (if b then x else y)
if-Next k f true x y h i = h
if-Next k f false x y h i = i

on_base-Next :
    (k : Config) (x : Result (Unit {0}) × Scheduler) (c : Capacity)
    → IsSound k c
    → IfOk (Next k c.fsm) (x.0, record c { base = x.1 })
on_base-Next k (ok u, s) c h = (stays, h)
on_base-Next k (err e, s) c h = tt

explore-Next :
    (tools : Tools) (k : Config) (r : Reading) (v : Visit) (vs : List Visit) (c : Capacity)
    → 1 ≤ r.now
    → 1 ≤ r.later
    → c.fsm ≢ finished
    → IsSound k c
    → IfOk (Next k c.fsm) (explore tools k r (v ∷ vs) c)
unfolding explore
explore-Next tools k r v vs c now late nf h =
    test-IfOk (Next k c.fsm) (eqb c.last_time 0) (start r (v ∷ vs) c) _
      (λ e. start_sound k r v vs c k.max_load c.fsm now refl refl nf (ground (arith, e)) h)
      (λ e.
        test-IfOk (Next k c.fsm) (is_past c.period (r.now - c.last_time))
          (measure tools k r (v ∷ vs) c) (ok tt, sample k r c)
          (λ f.
            measure-Next tools k r (v ∷ vs) c k.max_load c.fsm late refl refl nf (ground (arith, e))
              h)
          (λ f. if-Next k c.fsm (is_some k.max_load) _ c (stays, h) (stays, h)))

goes_on : (b : Bool) (f : Fsm) → (not b || is_finished f) ≡ false → f ≢ finished
goes_on true finished e = ground (arith, e)
goes_on true initial e = ground arith
goes_on true search e = ground arith
goes_on true search_down e = ground arith
goes_on true validate e = ground arith
goes_on false f e = ground (arith, e)

-- A refresh that does not raise, at times after 0, moves the search along its arrows and keeps its
-- counts until it is finished: no step and no time in the initial state; one step more than periods in
-- each later state of a validated search; no period and no later state but the first without
-- validation.
pub refresh-Next :
    (tools : Tools) (k : Config) (r : Reading) (vs : List Visit) (c : Capacity)
    → 1 ≤ r.now
    → 1 ≤ r.later
    → IsSound k c
    → IfOk (λ d. Moves c.fsm d.fsm × IsSound k d) (refresh tools k r vs c)
unfolding refresh
refresh-Next tools k r [] c now late h = (stays, h)
refresh-Next tools k r (v ∷ vs) c now late h =
    test-IfOk (Next k c.fsm) c.base.cps_scheduling _ (ok tt, c)
      (λ e.
        test-IfOk (Next k c.fsm) (not (is_loadgen c.base.phase) || is_finished c.fsm) _
          (explore tools k r (v ∷ vs) c) (λ f. on_base-Next k (Base.refresh (v ∷ vs) c.base) c h)
          (λ f.
            explore-Next tools k r v vs c now late (goes_on (is_loadgen c.base.phase) c.fsm f) h))
      (λ e. (stays, h))

-- A search from its beginning: refreshes that do not raise, and changes of the scheduler below.
pub data Runs (tools : Tools) (k : Config) : Capacity → Capacity → Type 0 where
  begins_at : {c : Capacity} → Runs tools k c c
  refreshes :
      {c d e : Capacity} (r : Reading) (vs : List Visit)
      → Runs tools k c d
      → 1 ≤ r.now
      → 1 ≤ r.later
      → refresh tools k r vs d ≡ (ok tt, e)
      → Runs tools k c e
  changes :
      {c d : Capacity} (s : Scheduler) → Runs tools k c d → Runs tools k c (record d { base = s })

abbrev pub IsFresh : Capacity → Type 0
IsFresh c = (c.fsm ≡ initial) × (c.period_load ≡ []) × (c.nof_steps ≡ 0) × (c.last_time ≡ 0)

pub fresh-IsSound : (k : Config) (c : Capacity) → IsFresh c → IsSound k c
fresh-IsSound k c (f, l, n, t) = rw (f, l, n, t) (refl, refl, refl)

pub Runs-IsSound :
    (tools : Tools) (k : Config) {c d : Capacity} → IsSound k c → Runs tools k c d → IsSound k d
Runs-IsSound tools k h begins_at = h
Runs-IsSound tools k h (changes s run) = Runs-IsSound tools k h run
Runs-IsSound tools k h (refreshes {d = d} r vs run now late e) =
    (subst (IfOk (Next k d.fsm)) e
      (refresh-Next tools k r vs d now late (Runs-IsSound tools k h run))).1
