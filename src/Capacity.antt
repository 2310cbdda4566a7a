-- ===== src/Capacity.antt =====
-- HSS_rtc/HSS_rtc_lib/components/scheduler.py, `EC_Scheduler`: its state, and the parts of the
-- search for the capacity. The states of the search stand in the modules below.
pub mod Table
pub mod Plans
pub mod Search
pub mod Orders
pub mod States
pub mod Periods
pub mod Invariant
pub mod Runs
pub mod Failures
pub mod Descent
mod Tests
use st_tools.Prelude.{
  ℕ, zero, suc, ◌+◌, ◌/◌, String, Bool, true, false, not, ◌&&◌, Option, none, some, List, [], ◌∷◌,
  ◌++◌, length, ltb, leb, get_or, is_some, last?, if◌then◌else◌,
}
use st_tools.Prelude.Int.{ℤ, pos, negsuc}
use st_tools.Prelude.Dict.{Dict, lookup}
use st_tools.Prelude.Exec.{Exn}
use st_tools.Scheduler.{
  Scheduler, BatData, Visit, Time, Event, request_stop_phase, verdict_failed, set_target_cps, emit,
  change,
}

-- `self.__fsm_status`
pub data Fsm : Type 0 where
  initial search search_down validate finished : Fsm

-- A slot of the traffic after the search: its share of the capacity, a number or a macro.
pub record TrafficSlot : Type 0 where
  pub time : Time
  pub factor : String

pub record Reference : Type 0 where
  pub id : String
  pub slots : List TrafficSlot
  pub target_load_factor : String

-- `max_load` -1 is `none`: the load is not validated. Rates, loads and variances are counted in units
-- that are fine enough, a cps in fifths.
pub record Config : Type 0 where
  pub max_load : Option ℕ
  pub max_error_rate : ℕ
  pub max_load_variance : ℕ
  pub measures_dc : Bool
  pub validation_time : Option ℕ
  pub traffic_slots : List TrafficSlot
  pub traffic_ref : List Reference
  pub update_load_monitor : Bool

-- What the code takes from numpy, from the macros and from the product of floats: the variance of
-- samples, the cps and the load of a factor, `none` for a factor that is no number.
pub record Tools : Type 0 where
  pub var : List ℕ → ℕ
  pub cps_of : String → ℤ → Option ℤ
  pub load_of : String → ℤ → Option ℤ

-- `period` and `candidate` -1 are `none`, and so is a period's load.
pub record Capacity : Type 0 where
  pub base : Scheduler
  pub fsm : Fsm
  pub last_time : ℕ
  pub period : Option ℕ
  pub candidate : Option ℕ
  pub load : Option ℤ
  pub load_samples : List ℕ
  pub period_load : List (Option ℕ)
  pub load_variance : ℕ
  pub rump_up : Bool
  pub pl_for_dc : Option String
  pub pending_to_start : Option ℕ
  pub nof_steps : ℕ

-- What a refresh reads: the times, the monitors, and whether a processor that was locked unlocks.
pub record Reading : Type 0 where
  pub now : ℕ
  pub later : ℕ
  pub error_rate : ℕ
  pub tps_error_rate : ℕ
  pub monitored_load : ℕ
  pub unlocks : Bool

abbrev pub set_base : (Scheduler → Scheduler) → Capacity → Capacity
set_base f c = record c { base = f c.base }

abbrev pub load_validation_enabled : Config → Bool
load_validation_enabled k = is_some k.max_load

abbrev pub sum : List ℕ → ℕ
sum [] = 0
sum (n ∷ l) = n + sum l

-- `load_media`
unfoldable pub load_media : List ℕ → ℕ
load_media [] = 0
load_media (n ∷ l) = sum (n ∷ l) / length (n ∷ l)

-- The samples from the first one that passes.
unfoldable pub from_first : (ℕ → Bool) → List ℕ → Option (List ℕ)
from_first f [] = none
from_first f (n ∷ l) = if f n then some (n ∷ l) else from_first f l

unfoldable pub purge_load_samples : Bool → ℕ → List ℕ → List ℕ
unfolding from_first
purge_load_samples rump_up media l =
    get_or (from_first (if rump_up then leb media else (λ n. leb n media)) l) l

abbrev pub is_validate : Fsm → Bool
is_validate validate = true
is_validate s = false

abbrev pub measured : Tools → Config → List ℕ → Capacity → Bool × Capacity
measured tools k samples c =
    let v = tools.var samples in
    (
      leb v k.max_load_variance,
      record c {
        load_samples = samples;
        period_load = c.period_load ++ some (load_media samples) ∷ [];
        load_variance = v;
      },
    )

-- `load_stable`, with the load of the period that it stores; no load is not stable.
unfoldable pub load_stable : Tools → Config → Capacity → Bool × Capacity
unfolding load_media purge_load_samples
load_stable tools k c =
    let media = load_media c.load_samples in
    if leb 1 media
    then measured tools k
        (if is_validate c.fsm
          then c.load_samples
          else purge_load_samples c.rump_up media c.load_samples)
        c
    else (false, record c { period_load = c.period_load ++ none ∷ [] })

-- The error that ends the search.
unfoldable pub give_up : Capacity → Capacity
give_up c = record c { base = emit request_stop_phase (emit verdict_failed c.base); fsm = finished }

-- How a loop over the BAT instances ends.
pub data Turn : Type 0 where
  goes_on gave_up : Turn
  raises : Exn → Turn

-- The next value of a BAT instance, or the error instead: one that ends the search, also
-- `KeyError`, or one that is let through.
pub data Plan : Type 0 where
  order : ℤ → Plan
  no_order : Plan
  fails : Exn → Plan

-- `target` and `used_target` of an instance that took the value.
abbrev pub used : ℤ → BatData → BatData
used x d = record d { target = x; used_target = d.used_target ++ x ∷ [] }

abbrev pub taken : String → ℤ → Capacity → Capacity
taken bat x c = record c { base = change bat (used x) c.base; load_samples = [] }

abbrev pub ordered : Bool → (Capacity → Turn × Capacity) → Capacity → Turn × Capacity
ordered true rest c = rest c
ordered false rest c = (gave_up, give_up c)

-- One turn of a loop that orders a value from each BAT instance: `before` and `after` are what it
-- stores beside, and `rest` are the instances to come.
module _ (before after : BatData → Capacity → Capacity) (v : Visit)
    (rest : Capacity → Turn × Capacity) where
  abbrev pub carry_out : BatData → Capacity → Plan → Turn × Capacity
  carry_out d c (order x) =
      let (set, s) = set_target_cps v.bat x v.reply (before d c).base in
      ordered set (λ e. rest (after d (taken v.bat x e))) (record (before d c) { base = s })
  carry_out d c no_order = (gave_up, give_up (before d c))
  carry_out d c (fails e) = (raises e, before d c)

  abbrev pub order_from : (BatData → Plan) → Capacity → Option BatData → Turn × Capacity
  order_from plan c none = (gave_up, give_up c)
  order_from plan c (some d) = carry_out d c (plan d)

  unfoldable pub order_one : (BatData → Plan) → Capacity → Turn × Capacity
  unfolding give_up set_target_cps
  order_one plan c = order_from plan c (lookup v.bat c.base.data_of)

unfoldable pub order_loop :
    (BatData → Plan)
    → (BatData → Capacity → Capacity)
    → (BatData → Capacity → Capacity)
    → List Visit
    → Capacity
    → Turn × Capacity
unfolding order_one
order_loop plan before after [] c = (goes_on, c)
order_loop plan before after (v ∷ vs) c =
    order_one before after v (order_loop plan before after vs) plan c
