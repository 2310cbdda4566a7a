-- ===== src/Capacity/Search.antt =====
-- The states of the search: `refresh`, `start_phase` and `shutdown`.
use st_tools.Prelude.{
  ℕ, suc, ◌-◌, String, Bool, true, false, not, ◌&&◌, ◌||◌, Option, none, some, List, [], ◌∷◌, ◌++◌,
  length, last?, ltb, leb, eqb, get_or, is_some, if◌then◌else◌,
}
use st_tools.Prelude.Int.{ℤ, pos, negsuc}
use st_tools.Prelude.Exec.{Result, ok, err, run_error, index_error, Exec, pure, ◌>>◌, modify}
use st_tools.Scheduler.{
  Scheduler, Phase, preexec, loadgen, postexec, BatData, Deltas, table, deltas, Visit,
  start_error_monitor, stop_error_monitor, skip_check_last_register, disable_load_monitor,
  unlock_processor, emit, is_loadgen,
}
use st_tools.Scheduler as Base
use st_tools.Capacity.{
  Capacity, Config, Tools, Reading, Fsm, search, search_down, validate, finished, set_base,
  load_validation_enabled, load_stable, give_up, Turn, goes_on, gave_up, raises, order_loop,
}
use st_tools.Capacity.Table.{finish, scheduling_info}
use st_tools.Capacity.Plans.{
  plan_initial, candidate_of, plan_turn, plan_up, plan_down, plan_dc, as_is,
}

-- What follows a loop that ordered all values.
abbrev pub turned :
    (Capacity → Result (Unit {0}) × Capacity) → Turn × Capacity → Result (Unit {0}) × Capacity
turned f (goes_on, c) = f c
turned f (gave_up, c) = (ok tt, c)
turned f (raises e, c) = (err e, c)

abbrev pub start_monitoring : Capacity → Capacity
start_monitoring = set_base (emit start_error_monitor)

-- The next step is on its way.
abbrev pub next_step : Reading → Capacity → Result (Unit {0}) × Capacity
next_step r c =
    (ok tt, start_monitoring (record c { nof_steps = suc c.nof_steps; last_time = r.later }))

-- The first refresh.
unfoldable pub start : Reading → List Visit → Capacity → Result (Unit {0}) × Capacity
unfolding order_loop plan_initial
start r vs c =
    turned (λ e. (ok tt, e))
      (order_loop plan_initial as_is (λ d e. record e { fsm = search }) vs
        (record c { last_time = r.now; nof_steps = suc c.nof_steps }))

-- -1 stands for no load.
abbrev pub as_load : Option ℕ → ℤ
as_load none = negsuc 0
as_load (some n) = pos n

-- `load >= max_load`, and `load <= max_load`.
abbrev pub over : Config → Option ℕ → Bool
over k load = elim k.max_load [
  | none ↦ false
  | some m ↦ elim load [ none ↦ false | some n ↦ leb m n ]
]

abbrev pub within : Config → Option ℕ → Bool
within k load = elim k.max_load [
  | none ↦ true
  | some m ↦ elim load [ none ↦ true | some n ↦ leb n m ]
]

abbrev pub validated_load : Config → Option ℕ → Option ℤ
validated_load k load = some (if load_validation_enabled k then as_load load else negsuc 0)

-- Each takes whether the load is stable, and the load of the period.
unfoldable pub in_validate :
    Tools → Config → Reading → Bool → Option ℕ → Capacity → Result (Unit {0}) × Capacity
unfolding finish give_up
in_validate tools k r stable load c =
    if ltb k.max_error_rate r.tps_error_rate || not stable
    then (ok tt, give_up c)
    else finish tools k (λ e. e) (record c { load = validated_load k load })

abbrev pub reached_limit : Config → Reading → Bool → Option ℕ → Bool
reached_limit k r stable load =
    ltb k.max_error_rate r.error_rate || over k load || (load_validation_enabled k && not stable)

unfoldable pub in_search :
    Config → Reading → Bool → Option ℕ → List Visit → Capacity → Result (Unit {0}) × Capacity
unfolding order_loop plan_turn plan_up
in_search k r stable load vs c = turned (next_step r) (
    if reached_limit k r stable load
    then order_loop plan_turn (λ d e. record e { candidate = candidate_of d.used_target }) as_is vs
        (record c { fsm = search_down; rump_up = false })
    else order_loop plan_up as_is as_is vs c)

-- `unlock_PL`, when a processor is locked; if it does not unlock, this is only logged.
unfoldable pub unlock_pl : Bool → Exec Capacity (Unit {0})
unlock_pl unlocks c = elim c.pl_for_dc [
  | none ↦ (ok tt, c)
  | some pl ↦
      let c' = set_base (emit (unlock_processor pl)) c in
      (ok tt, if unlocks then record c' { pl_for_dc = none } else c')
]

-- The measure of the dimensioned capacity begins.
unfoldable pub start_dc : Config → Reading → List Visit → Exec Capacity (Unit {0})
unfolding order_loop plan_dc unlock_pl
start_dc k r vs = unlock_pl r.unlocks >> (λ c.
    turned
      (λ e.
        next_step r (record e { load_samples = []; fsm = validate; period = k.validation_time }))
      (order_loop plan_dc as_is (λ d e. record e { candidate = some (length d.used_target) }) vs c))

unfoldable pub step_down : Reading → List Visit → Capacity → Result (Unit {0}) × Capacity
unfolding order_loop plan_down
step_down r vs c = turned (next_step r) (order_loop (plan_down c.candidate) as_is as_is vs c)

abbrev pub load_ok : Config → Bool → Option ℕ → Bool
load_ok k stable load = not (load_validation_enabled k) || (stable && within k load)

unfoldable pub in_search_down :
    Tools
    → Config
    → Reading
    → Bool
    → Option ℕ
    → List Visit
    → Capacity
    → Result (Unit {0}) × Capacity
unfolding start_dc step_down finish
in_search_down tools k r stable load vs c =
    let fine = load_ok k stable load in
    let c' = record c { load = if fine then validated_load k load else some (negsuc 0) } in
    if leb r.tps_error_rate k.max_error_rate && fine
    then if k.measures_dc then start_dc k r vs c' else finish tools k start_monitoring c'
    else step_down r vs c'

-- The states, after a period; in the others the search gives up.
unfoldable pub by_state :
    Tools
    → Config
    → Reading
    → Bool
    → Option ℕ
    → List Visit
    → Capacity
    → Fsm
    → Result (Unit {0}) × Capacity
unfolding in_validate in_search in_search_down give_up
by_state tools k r stable load vs c validate = in_validate tools k r stable load c
by_state tools k r stable load vs c search = in_search k r stable load vs c
by_state tools k r stable load vs c search_down = in_search_down tools k r stable load vs c
by_state tools k r stable load vs c f = (ok tt, give_up c)

-- The monitor of errors is stopped, and its last register is out of the check.
abbrev pub stop_monitoring : Capacity → Capacity
stop_monitoring = set_base (λ s. emit skip_check_last_register (emit stop_error_monitor s))

-- A period is over. Its load is read for the log, validated or not.
unfoldable pub measure :
    Tools → Config → Reading → List Visit → Capacity → Result (Unit {0}) × Capacity
unfolding load_stable by_state
measure tools k r vs c =
    let c0 = stop_monitoring c in
    let (stable, c') = if load_validation_enabled k then load_stable tools k c0 else (true, c0) in
    elim (last? c'.period_load) [
      | none ↦ (err index_error, c')
      | some load ↦ by_state tools k r stable load vs c' c'.fsm
    ]

abbrev pub is_past : Option ℕ → ℕ → Bool
is_past none elapsed = true
is_past (some period) elapsed = ltb period elapsed

abbrev pub sample : Config → Reading → Capacity → Capacity
sample k r c =
    if load_validation_enabled k
    then record c {
      load = some (pos r.monitored_load);
      load_samples = c.load_samples ++ r.monitored_load ∷ [];
    }
    else c

unfoldable pub explore :
    Tools → Config → Reading → List Visit → Capacity → Result (Unit {0}) × Capacity
unfolding start measure
explore tools k r vs c =
    if eqb c.last_time 0
    then start r vs c
    else if is_past c.period (r.now - c.last_time)
    then measure tools k r vs c
    else (ok tt, sample k r c)

abbrev pub is_finished : Fsm → Bool
is_finished finished = true
is_finished s = false

-- A method of the class above.
abbrev pub on_base :
    (Scheduler → Result (Unit {0}) × Scheduler) → Capacity → Result (Unit {0}) × Capacity
on_base f c = let (r, s) = f c.base in (r, record c { base = s })

unfoldable pub refresh :
    Tools → Config → Reading → List Visit → Capacity → Result (Unit {0}) × Capacity
unfolding explore Base.refresh
refresh tools k r [] c = (ok tt, c)
refresh tools k r (v ∷ vs) c =
    if c.base.cps_scheduling
    then if not (is_loadgen c.base.phase) || is_finished c.fsm
      then on_base (Base.refresh (v ∷ vs)) c
      else explore tools k r (v ∷ vs) c
    else (ok tt, c)

-- What `lock_PL` comes to: the processor that it locks, and whether all connections come up then.
pub record Lock : Type 0 where
  pub processor : Option String
  pub is_up : Bool

abbrev pub lock_pl : Lock → Exec Capacity (Unit {0})
lock_pl l c = elim l.processor [
  | none ↦ (err run_error, c)
  | some pl ↦ (if l.is_up then ok tt else err run_error, record c { pl_for_dc = some pl })
]

-- Another BAT instance is ready; with the last one the search begins. `count` is the number of BAT
-- instances, of which there is one at least.
unfoldable pub count_down : Tools → Config → Reading → ℕ → List Visit → Exec Capacity (Unit {0})
unfolding refresh
count_down tools k r count vs c =
    let left = get_or c.pending_to_start count - 1 in
    let c' = record c { pending_to_start = some left } in
    if eqb left 0
    then (refresh tools k r vs >> modify (λ e. record e { pending_to_start = none })) c'
    else (ok tt, c')

-- The monitor of the load is off, and a processor is locked for the measure of the dimensioned
-- capacity.
abbrev pub prepare : Config → Lock → Exec Capacity (Unit {0})
prepare k l c =
    let c' = if load_validation_enabled k then set_base (emit disable_load_monitor) c else c in
    if k.measures_dc && not (is_some c'.pl_for_dc) then lock_pl l c' else (ok tt, c')

unfoldable pub start_phase :
    Tools → Config → Lock → Reading → ℕ → Phase → Visit → List Visit → Exec Capacity (Unit {0})
unfolding count_down Base.start_phase
start_phase tools k l r count loadgen v vs c =
    (prepare k l >> count_down tools k r count vs) (set_base (λ s. record s { phase = loadgen }) c)
start_phase tools k l r count p v vs c = on_base (Base.start_phase p v) c

abbrev pub close_log : Config → Exec Capacity (Unit {0})
close_log k c = elim (scheduling_info k c) [ err e ↦ (err e, c) | ok lines ↦ (ok tt, c) ]

abbrev pub turn_off : Capacity → Capacity
turn_off = set_base (λ s. record s { online = false })

-- `shutdown`, less the graph: it raises where the report does.
unfoldable pub shutdown : Config → Bool → Exec Capacity (Unit {0})
unfolding unlock_pl scheduling_info
shutdown k unlocks c =
    ((if c.base.online then (λ d. unlock_pl unlocks (turn_off d)) else pure tt) >> close_log k) c
