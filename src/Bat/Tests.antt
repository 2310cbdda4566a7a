-- ===== src/Bat/Tests.antt =====
-- BATs on small inputs.
use st_tools.Prelude.{◌≡◌, refl, arith, ℕ, true, false, Option, none, some, List, [], ◌∷◌, ◌++◌}
use st_tools.Prelude.Int
use st_tools.Prelude.Int.{ℤ, pos, ◌+ℤ◌}
use st_tools.Prelude.Dict.{keys, lookup, modify, insert}
use st_tools.Bat.{
  Bat, loadgen, error_db_registering, error_db_read_register_counters, error_db_update_register,
}
use st_tools.Bat.Statistics.{
  Script, Line, Answer, Sampler, empty, no_value, check_result, get_current_stats,
}
use st_tools.Bat.Counts.{executed_in}
use st_tools.Bat.Samples.{check_all, check_all-executed, StaysIn}
use st_tools.Bat.Run
use st_tools.Bat.Run.{
  output, stop_called, alias_sent, line, absent, names, timeout, mc_problem, loop, starting,
  running, stopping, Event, left, collect_and_clean,
}
use st_tools.Bat.Ends.{Ends}
use st_tools.Bat.Shutdown.{IsLeft, stop-IsLeft}

abbrev loaded : ℕ → ℕ → ℕ → Option Line
loaded t success errors = some (record {
  script = "SCRIPT_A";
  time = t;
  values = record {
    preexec = no_value;
    loadgen = record { started = 1; success = success; errors = errors };
    postexec = no_value;
  };
})

abbrev answer : ℕ → ℕ → ℕ → Answer
answer t success errors = record {
  scripts = "SCRIPT_A" ∷ [];
  lines = some (loaded t success errors ∷ []);
}

abbrev in_loadgen : Bat
in_loadgen = record {
  traffic_phase = loadgen;
  error_db = record {
    preexec = [];
    loadgen = record { is_open = true; executed = pos 0; errors = pos 0 } ∷ [];
    postexec = [];
  };
  enable = λ p. true;
}

-- The statistics are read once, and this is the sample that the counting begins with.
abbrev fresh : Sampler
fresh = record {
  bat = in_loadgen;
  has_stat_file = true;
  error_template = empty;
  current_stats = empty;
  last_stats = empty;
  sampling_time = 5;
}

abbrev script_a : ℕ → ℕ → Script
script_a success errors = record {
  preexec = no_value;
  loadgen = record { started = 1; success = success; errors = errors };
  postexec = no_value;
}

abbrev begun : Sampler
begun = record fresh {
  error_template = record { time = 100; scripts = ("SCRIPT_A", script_a 70 1) ∷ [] };
  current_stats = record { time = 100; scripts = ("SCRIPT_A", script_a 70 1) ∷ [] };
  last_stats = record { time = 100; scripts = ("SCRIPT_A", script_a 70 1) ∷ [] };
}

-- What was counted before the first sample is in no register.
first_sample : (check_result (answer 100 70 1) fresh).1 ≡ begun
unfolding get_current_stats check_result error_db_update_register lookup modify keys insert Int.◌-ℤ◌
    ◌+ℤ◌
first_sample = refl

abbrev samples : List Answer
samples =
    answer 103 75 1 ∷ answer 106 80 3 ∷ record { scripts = []; lines = none } ∷ answer 112 90 3 ∷ []

counts_of_samples : error_db_read_register_counters (check_all samples begun).bat ≡ (pos 22, pos 2)
unfolding get_current_stats check_result error_db_update_register lookup modify keys insert Int.◌-ℤ◌
    ◌+ℤ◌ error_db_read_register_counters
counts_of_samples = refl

samples_stay : StaysIn loadgen samples begun
unfolding get_current_stats check_result error_db_update_register lookup modify keys insert Int.◌-ℤ◌
    ◌+ℤ◌
samples_stay = ((refl, refl, (refl, refl, (refl, refl, (refl, refl, tt)))))

begun_registers : error_db_registering begun.bat ≡ true
unfolding error_db_registering
begun_registers = refl

begun_knows : keys begun.error_template.scripts ≡ "SCRIPT_A" ∷ []
unfolding keys
begun_knows = refl

check_all-executed_example :
    (error_db_read_register_counters (check_all samples begun).bat).0
      +ℤ executed_in loadgen ("SCRIPT_A" ∷ []) begun.last_stats
    ≡ (error_db_read_register_counters begun.bat).0
      +ℤ executed_in loadgen ("SCRIPT_A" ∷ []) (check_all samples begun).last_stats
check_all-executed_example =
    check_all-executed "SCRIPT_A" [] samples begun begun_registers refl begun_knows refl
      samples_stay

abbrev just_started : Run.Bat
just_started = record {
  state = starting;
  time_for_start = pos 180;
  time_for_shutdown = pos 120;
  exit_code = "";
  need_clean = true;
  has_node = true;
  has_monitor = false;
  interrupts_sent = 0;
  diaproxys = [];
  loadplotter = none;
}

abbrev short_life : List Event
short_life =
    output (line absent (names "gt1:5000")) 1
    ∷ output (alias_sent true) 3
    ∷ stop_called
    ∷ output (timeout true) 10
    ∷ output (timeout true) 60
    ∷ output (timeout true) 61
    ∷ output (timeout true) 5
    ∷ []

end_of_short_life :
    loop short_life just_started
    ≡ left (record just_started {
      state = stopping;
      time_for_start = pos 179;
      time_for_shutdown = Int.negsuc 0;
      interrupts_sent = 1;
      loadplotter = some "gt1:5000";
    })
unfolding loop Int.◌-ℤ◌
end_of_short_life = refl

abbrev quiet : List Event
quiet = output (timeout true) 60 ∷ output (line absent absent) 50 ∷ stop_called ∷ []

stop-IsLeft_example : IsLeft (
    loop
      (stop_called ∷ output (timeout true) 4 ∷ quiet ++ output (timeout true) 10 ∷ [])
      (record just_started { state = running }))
stop-IsLeft_example =
    stop-IsLeft (record just_started { state = running }) (timeout true) 4 quiet 10 true tt refl
      (tt, tt, tt) (omega arith)

-- No exit code is found in three tries.
assumed_success : (collect_and_clean none (some []) none just_started).exit_code ≡ "Success"
unfolding collect_and_clean
assumed_success = refl
