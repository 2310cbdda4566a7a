-- ===== src/ErrorMonitor.antt =====
-- HSS_rtc/HSS_rtc_lib/components/monitor.py, `ErrorMonitor`: the rate of errors of all BATs of a test
-- case, from a start of the monitoring to its stop.
pub mod Rates
mod Tests
use st_tools.Prelude.{
  ℕ, suc, String, Bool, true, false, not, ◌&&◌, ◌||◌, Option, none, some, List, [], ◌∷◌, ◌++◌, map,
  last?, get_or, eqb, if◌then◌else◌, ◌==◌, ◌+◌,
}
use st_tools.Prelude.Int.{ℤ, pos, ◌+ℤ◌, magnitude}
use st_tools.Bat.{
  TrafficPhase, preexec, Bat, error_db_open_register, error_db_close_register,
  error_db_read_register_counters,
}

-- A rate in percent: -1 if there is none, 0.0, or 100 times the errors by the executed.
pub data Rate : Type 0 where
  no_rate zero_rate : Rate
  percent : ℤ → ℤ → Rate

-- An entry of `__error_db`, less its texts; a rate that is given is a number of small units.
pub record Register : Type 0 where
  pub phase : TrafficPhase
  pub is_closed : Bool
  pub executed : ℤ
  pub errors : ℤ
  pub error_rate : Rate
  pub max_error_rate : ℕ
  pub check : Bool

-- `bats` are the instances of the test case.
pub record Monitor : Type 0 where
  pub running : Bool
  pub monitoring : Bool
  pub enable : TrafficPhase → Bool
  pub phase : TrafficPhase
  pub error_rate : ℕ
  pub default_error_rate : ℕ
  pub error_db : List Register
  pub bats : List Bat

-- `__init__`, in a scenario with traffic. The configuration says which phases are monitored, if it
-- has `monitor_error`; the first rate is 0.1 and stands until a start sets one.
unfoldable pub new_monitor : Option (TrafficPhase → Bool) → ℕ → ℕ → List Bat → Monitor
new_monitor config rate default bats = record {
  running = elim config [ none ↦ false | some enable ↦ true ];
  monitoring = false;
  enable = λ p. elim config [ none ↦ false | some enable ↦ enable p ];
  phase = preexec;
  error_rate = rate;
  default_error_rate = default;
  error_db = [];
  bats = bats;
}

unfoldable pub enabled : Monitor → Bool
enabled m = m.enable m.phase

-- `error_rate.setter`
abbrev pub set_error_rate : Option ℕ → Monitor → Monitor
set_error_rate rate m = record m { error_rate = get_or rate m.default_error_rate }

unfoldable pub open_register : Monitor → Monitor
open_register m = record m {
  error_db =
      m.error_db
      ++ record {
        phase = m.phase;
        is_closed = false;
        executed = pos 0;
        errors = pos 0;
        error_rate = no_rate;
        max_error_rate = m.error_rate;
        check = true;
      }
        ∷ [];
}

unfoldable pub start_monitoring : TrafficPhase → Option ℕ → Monitor → Monitor
unfolding enabled open_register
start_monitoring phase rate m =
    if m.running
    then (let m' = record m { phase = phase } in
        if enabled m'
        then (let m'' = open_register (set_error_rate rate m') in
            record m'' { bats = map (error_db_open_register phase) m''.bats; monitoring = true })
        else m')
    else m

abbrev pub all_executed : List Bat → ℤ
all_executed [] = pos 0
all_executed (b ∷ l) = (error_db_read_register_counters b).0 +ℤ all_executed l

abbrev pub all_errors : List Bat → ℤ
all_errors [] = pos 0
all_errors (b ∷ l) = (error_db_read_register_counters b).1 +ℤ all_errors l

abbrev pub is_zero : ℤ → Bool
is_zero i = eqb (magnitude i) 0

abbrev pub rate_of : ℤ → ℤ → Rate
rate_of errors executed = if is_zero executed then zero_rate else percent errors executed

abbrev pub close_with : List Bat → Register → Register
close_with l r =
    let executed = r.executed +ℤ all_executed l in
    let errors = r.errors +ℤ all_errors l in
    record r {
      is_closed = true;
      executed = executed;
      errors = errors;
      error_rate = rate_of errors executed;
    }

abbrev pub write_last : (Register → Register) → List Register → List Register
write_last f [] = []
write_last f (r ∷ []) = f r ∷ []
write_last f (r ∷ s ∷ l) = r ∷ write_last f (s ∷ l)

-- `error_db_close_register`
unfoldable pub close_register : Monitor → Monitor
close_register m = record m { error_db = write_last (close_with m.bats) m.error_db }

abbrev pub rate_at : Option Register → Rate
rate_at none = no_rate
rate_at (some r) = r.error_rate

unfoldable pub last_error_rate : Monitor → Rate
last_error_rate m = rate_at (last? m.error_db)

unfoldable pub stop_monitoring : Monitor → Rate × Monitor
unfolding close_register last_error_rate
stop_monitoring m =
    if m.running
    then if m.monitoring
      then (let m' = close_register (record m { bats = map error_db_close_register m.bats }) in
          (last_error_rate m', record m' { monitoring = false }))
      else (no_rate, record m { monitoring = false })
    else (no_rate, m)

unfoldable pub shutdown : Monitor → Monitor
unfolding stop_monitoring
shutdown m =
    let m' = if m.running && m.monitoring then (stop_monitoring m).1 else m in
    record m' { running = false }

unfoldable pub skip_check_last_register : Monitor → Monitor
skip_check_last_register m = record m {
  error_db = write_last (λ r. record r { check = false }) m.error_db;
}

-- `above` compares a rate with one that is given.
unfoldable pub failed_registers : (Rate → ℕ → Bool) → List Register → List Register
failed_registers above [] = []
failed_registers above (r ∷ l) =
    let rest = failed_registers above l in
    if above r.error_rate r.max_error_rate && r.check then r ∷ rest else rest

-- The loop of `tps_error_rate` over the counters of the diaproxies: what is executed, and what failed.
abbrev pub tps_counters : List (String × ℕ) → ℕ × ℕ
tps_counters [] = (0, 0)
tps_counters ((name, n) ∷ l) =
    let (executed, failed) = tps_counters l in
    if name == "request"
    then (executed, failed)
    else if name == "success" || name == "other"
    then (n + executed, failed)
    else (n + executed, n + failed)

unfoldable pub tps_error_rate : List (String × ℕ) → Rate
tps_error_rate l = let (executed, failed) = tps_counters l in rate_of (pos failed) (pos executed)
