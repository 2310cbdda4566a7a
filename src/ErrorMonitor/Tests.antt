-- ===== src/ErrorMonitor/Tests.antt =====
-- `ErrorMonitor`: runs on small inputs.
use st_tools.Prelude.{◌≡◌, refl, arith, Bool, true, none, List, [], ◌∷◌}
use st_tools.Prelude.Int.{pos}
use st_tools.Bat.{Bat, loadgen}
use st_tools.ErrorMonitor.{Monitor, percent, start_monitoring, stop_monitoring, tps_error_rate}
use st_tools.ErrorMonitor.Rates.{
  Count, Gives, count_all, total_executed, total_errors, stop_monitoring-rate,
}

abbrev two_bats : List Bat
two_bats =
    record {
      traffic_phase = loadgen;
      error_db = record { preexec = []; loadgen = []; postexec = [] };
      enable = λ p. true;
    }
    ∷ record {
      traffic_phase = loadgen;
      error_db = record { preexec = []; loadgen = []; postexec = [] };
      enable = λ p. true;
    }
    ∷ []

abbrev waiting : Monitor
waiting = record {
  running = true;
  monitoring = Bool.false;
  enable = λ p. true;
  phase = loadgen;
  error_rate = 1;
  default_error_rate = 1;
  error_db = [];
  bats = two_bats;
}

abbrev counted : List Count
counted =
    record { number = 0; executed = pos 200; errors = pos 1 }
    ∷ record { number = 1; executed = pos 300; errors = pos 0 }
    ∷ record { number = 0; executed = pos 500; errors = pos 4 }
    ∷ []

stop_monitoring-rate_example : Gives (total_executed counted) (total_errors counted) (
    stop_monitoring (record (start_monitoring loadgen none waiting) {
      bats = count_all counted (start_monitoring loadgen none waiting).bats;
    }))
stop_monitoring-rate_example =
    stop_monitoring-rate loadgen none counted waiting refl refl ((refl, refl), ((refl, refl), tt))
      (omega arith, (omega arith, (omega arith, tt)))

rate_of_counters :
    tps_error_rate (("request", 12) ∷ ("success", 9) ∷ ("timeout", 1) ∷ ("other", 2) ∷ [])
    ≡ percent (pos 1) (pos 12)
unfolding tps_error_rate
rate_of_counters = refl
