-- ===== src/Scheduler.antt =====
-- HSS_rtc/HSS_rtc_lib/components/scheduler.py, `Scheduler_Base`: the traffic of each BAT instance in
-- slots of time.
pub mod Slots
pub mod Order
mod Tests
use st_tools.Prelude.{
  ℕ, ◌-◌, String, Bool, true, false, Option, none, some, List, [], ◌∷◌, ◌++◌, ltb, eqb, is_some,
  if◌then◌else◌,
}
use st_tools.Prelude.Int.{ℤ, pos}
use st_tools.Prelude.Dict.{Dict, lookup, insert, modify}
use st_tools.Prelude.Exec.{Result, ok, err, Exn, run_error}

pub data Phase : Type 0 where
  preexec loadgen postexec : Phase

-- The `time` of a slot: -1 is without end.
pub data Time : Type 0 where
  endless : Time
  seconds : ℕ → Time

pub record Slot : Type 0 where
  pub time : Time
  pub value : ℤ

-- What `cps_scheduler` holds for the search of a capacity.
pub record Deltas : Type 0 where
  pub initial : ℤ
  pub delta_up : ℤ
  pub delta_down : ℤ

-- `loadgen` is a list of slots, or the dict of the search until that has built such a list.
pub data Loadgen : Type 0 where
  table : List Slot → Loadgen
  deltas : Deltas → Loadgen

-- An entry of `self.data`; `last_time` 0 is a phase that has not begun.
pub record BatData : Type 0 where
  pub preexec_slots : Option (List Slot)
  pub loadgen_slots : Option Loadgen
  pub postexec_slots : Option (List Slot)
  pub last_time : ℕ
  pub target : ℤ
  pub last_current : ℤ
  pub used_target : List ℤ

-- What the executor, the BAT instances and the monitors are told.
pub data Event : Type 0 where
  set_value : String → ℤ → Event
  request_stop_phase verdict_failed : Event
  start_error_monitor stop_error_monitor skip_check_last_register enable_load_monitor
        disable_load_monitor :
      Event
  reconfigure_load : List ℤ → Event
  unlock_processor : String → Event
  update_reference : String → List (String × List ℤ) → List ℤ → ℤ → Event

pub record Scheduler : Type 0 where
  pub cps_scheduling : Bool
  pub phase : Phase
  pub data_of : Dict BatData
  pub online : Bool
  pub sent : List Event

-- What a BAT instance makes of `set_target_cps`: it is not running, or its monitor answers.
pub data Reply : Type 0 where
  not_running refuses accepts : Reply

-- A BAT instance that is refreshed, with the two times that are read and its reply.
pub record Visit : Type 0 where
  pub bat : String
  pub now : ℕ
  pub later : ℕ
  pub reply : Reply

abbrev pub emit : Event → Scheduler → Scheduler
emit e s = record s { sent = s.sent ++ e ∷ [] }

-- `set_target_cps`, with whether its value is true.
unfoldable pub set_target_cps : String → ℤ → Reply → Scheduler → Bool × Scheduler
set_target_cps bat value not_running s = (false, s)
set_target_cps bat value refuses s = (false, emit (set_value bat value) s)
set_target_cps bat value accepts s = (true, emit (set_value bat value) s)

-- The slots of the phase; `none` is `KeyError`.
abbrev pub as_slots : Loadgen → Option (List Slot)
as_slots (table l) = some l
as_slots (deltas d) = none

unfoldable pub slots : Phase → BatData → Option (List Slot)
slots preexec d = d.preexec_slots
slots postexec d = d.postexec_slots
slots loadgen d = elim d.loadgen_slots [ none ↦ none | some g ↦ as_slots g ]

unfoldable pub set_slots : Phase → List Slot → BatData → BatData
set_slots preexec l d = record d { preexec_slots = some l }
set_slots postexec l d = record d { postexec_slots = some l }
set_slots loadgen l d = record d { loadgen_slots = some (table l) }

-- How the visit of one BAT instance ends: with slots to come, without, by `KeyError`, by the
-- exception.
pub data Outcome : Type 0 where
  pending done missing failed : Outcome

abbrev pub change : String → (BatData → BatData) → Scheduler → Scheduler
change bat f s = record s { data_of = modify bat f s.data_of }

abbrev pub with_target : ℕ → ℤ → BatData → BatData
with_target t value d = record d { last_time = t; target = value }

-- The first slot is ordered.
abbrev pub set_slot : Visit → Slot → Scheduler → Outcome × Scheduler
set_slot v slot s =
    let (set, s') = set_target_cps v.bat slot.value v.reply s in
    if set then (pending, change v.bat (with_target v.later slot.value) s') else (failed, s')

-- The time of the first slot is over.
abbrev pub next_slot : Visit → Phase → List Slot → Scheduler → Outcome × Scheduler
next_slot v p [] s = (done, change v.bat (set_slots p []) s)
next_slot v p (slot ∷ l) s = set_slot v slot (change v.bat (set_slots p (slot ∷ l)) s)

abbrev pub is_over : Time → ℕ → Bool
is_over endless elapsed = false
is_over (seconds t) elapsed = ltb t elapsed

abbrev pub visit_slots : Visit → Phase → ℕ → List Slot → Scheduler → Outcome × Scheduler
visit_slots v p last_time [] s = (done, s)
visit_slots v p last_time (slot ∷ l) s =
    if eqb last_time 0
    then set_slot v slot s
    else if is_over slot.time (v.now - last_time)
    then next_slot v p l s
    else (pending, s)

-- The body of the loop of `refresh`.
unfoldable pub visit : Visit → Scheduler → Outcome × Scheduler
unfolding set_target_cps slots set_slots
visit v s = elim (lookup v.bat s.data_of) [
  | none ↦ (missing, s)
  | some d ↦ elim (slots s.phase d) [
    | none ↦ (missing, s)
    | some l ↦ visit_slots v s.phase d.last_time l s
  ]
]

-- `shutdown`, less the graph and the log.
unfoldable pub shutdown : Scheduler → Scheduler
shutdown s = record s { online = false }

abbrev pub is_loadgen : Phase → Bool
is_loadgen loadgen = true
is_loadgen p = false

-- The loop: `not_pending_slots` so far, and the visits to come.
unfoldable pub refresh_loop : Bool → List Visit → Scheduler → Result (Unit {0}) × Scheduler
unfolding visit shutdown
refresh_loop not_pending [] s = (
  ok tt,
  if not_pending then (if is_loadgen s.phase then emit request_stop_phase s else s) else s,
)
refresh_loop not_pending (v ∷ vs) s =
    let (o, s') = visit v s in
    elim o [
      | pending ↦ refresh_loop false vs s'
      | done ↦ refresh_loop not_pending vs s'
      | missing ↦ (ok tt, s')
      | failed ↦ (err run_error, shutdown s')
    ]

unfoldable pub refresh : List Visit → Scheduler → Result (Unit {0}) × Scheduler
unfolding refresh_loop
refresh [] s = (ok tt, s)
refresh (v ∷ vs) s = if s.cps_scheduling then refresh_loop true (v ∷ vs) s else (ok tt, s)

-- `start_phase`, for one BAT instance.
unfoldable pub start_phase : Phase → Visit → Scheduler → Result (Unit {0}) × Scheduler
unfolding refresh
start_phase p v s = elim (lookup v.bat s.data_of) [
  | none ↦ (ok tt, record s { phase = p })
  | some d ↦
      refresh (v ∷ []) (change v.bat (λ e. record e { last_time = 0 }) (record s { phase = p }))
]
