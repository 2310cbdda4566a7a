-- ===== src/Capacity/Tests.antt =====
-- A search with one BAT instance, from 100 cps by 50 up and 20 down; a cps counts five.
use st_tools.Prelude.{
  ◌≡◌, ◌++◌, refl, arith, ℕ, suc, none, some, [], ◌∷◌, List, All, true, false, Option,
  if◌then◌else◌,
}
use st_tools.Prelude.Int.{ℤ, pos}
use st_tools.Prelude.Exec.{err, index_error}
use st_tools.Prelude.Dict.{lookup}
use st_tools.Scheduler.{BatData, Scheduler, Visit, Event, deltas, loadgen, accepts}
use st_tools.Capacity.{Capacity, Config, Tools, Reading, initial, search, search_down}
use st_tools.Capacity.Search.{refresh, shutdown, step_down, stop_monitoring, turn_off}
use st_tools.Capacity.States.{Moves, IsSound, IfOk}
use st_tools.Capacity.Runs.{Runs, begins_at, refreshes, refresh-Next}
use st_tools.Capacity.Failures.{shutdown-raises, unvalidated-raises}
use st_tools.Capacity.Descent.{IsAbove, step_down-bound}

abbrev tools : Tools
tools = record { var = λ l. 0; cps_of = λ f x. some x; load_of = λ f x. some x }

abbrev config : Option ℕ → Config
config limit = record {
  max_load = limit;
  max_error_rate = 1;
  max_load_variance = 2;
  measures_dc = false;
  validation_time = none;
  traffic_slots = [];
  traffic_ref = [];
  update_load_monitor = false;
}

abbrev bat : List ℤ → BatData
bat used = record {
  preexec_slots = none;
  loadgen_slots =
      some (deltas (record { initial = pos 500; delta_up = pos 250; delta_down = pos 100 }));
  postexec_slots = none;
  last_time = 0;
  target = pos 0;
  last_current = pos 0;
  used_target = used;
}

abbrev scheduler : List ℤ → Scheduler
scheduler used = record {
  cps_scheduling = true;
  phase = loadgen;
  data_of = ("b", bat used) ∷ [];
  online = true;
  sent = [];
}

abbrev fresh : Capacity
fresh = record {
  base = scheduler [];
  fsm = initial;
  last_time = 0;
  period = some 60;
  candidate = none;
  load = none;
  load_samples = [];
  period_load = [];
  load_variance = 0;
  rump_up = true;
  pl_for_dc = none;
  pending_to_start = none;
  nof_steps = 0;
}

abbrev visit_b : Visit
visit_b = record { bat = "b"; now = 10; later = 11; reply = accepts }

abbrev at : ℕ → Reading
at n = record {
  now = n;
  later = suc n;
  error_rate = 0;
  tps_error_rate = 0;
  monitored_load = 40;
  unlocks = true;
}

abbrev begun : Option ℕ → Capacity
begun limit = (refresh tools (config limit) (at 10) (visit_b ∷ []) fresh).1

begun-Runs : (limit : Option ℕ) → Runs tools (config limit) fresh (begun limit)
unfolding refresh lookup
begun-Runs limit = refreshes (at 10) (visit_b ∷ []) begins_at (omega arith) (omega arith) refl

begun-search : (limit : Option ℕ) → (begun limit).fsm ≡ search
unfolding refresh lookup
begun-search limit = refl

begun-pl_for_dc : (limit : Option ℕ) → (begun limit).pl_for_dc ≡ none
unfolding refresh lookup
begun-pl_for_dc limit = refl

refresh-Next_example :
    IfOk
      (λ d. Moves initial d.fsm × IsSound (config (some 80)) d)
      (refresh tools (config (some 80)) (at 10) (visit_b ∷ []) fresh)
refresh-Next_example =
    refresh-Next tools (config (some 80)) (at 10) (visit_b ∷ []) fresh (omega arith) (omega arith)
      (refl, refl, refl)

shutdown-raises_example : shutdown (config (some 80)) true (begun (some 80)) ≡ (
  err index_error,
  if (begun (some 80)).base.online then turn_off (begun (some 80)) else begun (some 80),
)
shutdown-raises_example =
    shutdown-raises tools (config (some 80)) 80 true fresh (begun (some 80))
      (refl, refl, refl, refl) (begun-Runs (some 80)) refl (ground (arith, begun-search (some 80)))
      (ground (arith, begun-search (some 80))) (begun-pl_for_dc (some 80))

begun-last_time : (limit : Option ℕ) → (begun limit).last_time ≡ 10
unfolding refresh lookup
begun-last_time limit = refl

begun-cps_scheduling : (begun none).base.cps_scheduling ≡ true
unfolding refresh lookup
begun-cps_scheduling = refl

begun-phase : (begun none).base.phase ≡ loadgen
unfolding refresh lookup
begun-phase = refl

begun-period : (begun none).period ≡ some 60
unfolding refresh lookup
begun-period = refl

unvalidated-raises_example :
    ((begun none).fsm ≡ search)
    × (refresh tools (config none) (at 90) (visit_b ∷ []) (begun none)
        ≡ (err index_error, stop_monitoring (begun none)))
unvalidated-raises_example =
    unvalidated-raises tools (config none) (at 90) visit_b [] fresh (begun none)
      (refl, refl, refl, refl) (begun-Runs none) refl (ground (arith, begun-search none))
      (ground (arith, begun-last_time none)) begun-cps_scheduling begun-phase
      (rw (begun-period, begun-last_time none) refl)

-- The third step was over the limit.
abbrev falling : Capacity
falling = record fresh {
  base = scheduler (pos 500 ∷ pos 750 ∷ pos 1000 ∷ []);
  fsm = search_down;
  candidate = some 1;
}

step_down-bound_example :
    (l : List Event) × ((step_down (at 90) (visit_b ∷ []) falling).1.base.sent
      ≡ falling.base.sent ++ l)
    × All (IsAbove 1 falling.base.data_of) l
step_down-bound_example = step_down-bound (at 90) (visit_b ∷ []) falling 1 refl
