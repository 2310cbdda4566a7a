-- ===== src/Scheduler/Tests.antt =====
-- A BAT instance with one slot in the phase of the load.
use st_tools.Prelude.{◌≡◌, ◌⊎◌, refl, suc, none, some, [], ◌∷◌, All, true}
use st_tools.Prelude.Int.{pos}
use st_tools.Prelude.Dict.{lookup}
use st_tools.Scheduler.{
  BatData, Scheduler, Visit, loadgen, table, seconds, accepts, request_stop_phase, refresh,
}
use st_tools.Scheduler.Slots.{stops, IsOut}
use st_tools.Scheduler.Order.{refresh-stops}

abbrev one_bat : BatData
one_bat = record {
  preexec_slots = none;
  loadgen_slots = some (table (record { time = seconds 60; value = pos 100 } ∷ []));
  postexec_slots = none;
  last_time = 1;
  target = pos 100;
  last_current = pos 0;
  used_target = [];
}

abbrev scheduler : Scheduler
scheduler = record {
  cps_scheduling = true;
  phase = loadgen;
  data_of = ("b", one_bat) ∷ [];
  online = true;
  sent = [];
}

abbrev visit_late : Visit
visit_late = record { bat = "b"; now = 100; later = 101; reply = accepts }

-- The time of the slot is over.
stops_now : (refresh (visit_late ∷ []) scheduler).1.sent ≡ request_stop_phase ∷ []
unfolding refresh lookup
stops_now = refl

refresh-stops_example :
    let t = (refresh (visit_late ∷ []) scheduler).1 in
    (stops t.sent ≡ stops scheduler.sent)
    ⊎ ((stops t.sent ≡ suc (stops scheduler.sent))
        × (t.phase ≡ loadgen)
        × All (IsOut t) (visit_late ∷ []))
refresh-stops_example = refresh-stops (visit_late ∷ []) scheduler
