-- ===== src/Bat/Statistics.antt =====
-- What a BAT reads from the statistics that its traffic writes: get_current_stats, check_result and
-- update_errors_info.
use st_tools.Prelude.{
  ℕ, String, Bool, true, false, not, ◌&&◌, Option, none, some, List, [], ◌∷◌, ltb, eqb,
  if◌then◌else◌,
}
use st_tools.Prelude.Int.{ℤ, pos, ◌+ℤ◌, ◌-ℤ◌, ltb_ℤ, magnitude}
use st_tools.Prelude.Dict.{Dict, lookup, insert, modify, keys}
use st_tools.Prelude.Exec.{Result, ok, err, division_error}
use st_tools.Bat.{TrafficPhase, preexec, loadgen, postexec, Bat, error_db_update_register}

-- The `value` of a script in a phase.
pub record Value : Type 0 where
  pub started : ℕ
  pub success : ℕ
  pub errors : ℕ

pub record Script : Type 0 where
  pub preexec : Value
  pub loadgen : Value
  pub postexec : Value

abbrev pub value_in : TrafficPhase → Script → Value
value_in preexec s = s.preexec
value_in loadgen s = s.loadgen
value_in postexec s = s.postexec

-- A dict with the key `time` and the scripts; it is empty without scripts.
pub record Stats : Type 0 where
  pub time : ℕ
  pub scripts : Dict Script

-- A line of a group in the file.
pub record Line : Type 0 where
  pub script : String
  pub time : ℕ
  pub values : Script

-- `current_stats` is a copy; `error_template` is the object that get_current_stats writes.
pub record Sampler : Type 0 where
  pub bat : Bat
  pub has_stat_file : Bool
  pub error_template : Stats
  pub current_stats : Stats
  pub last_stats : Stats
  pub sampling_time : ℕ

abbrev pub empty : Stats
empty = record { time = 0; scripts = [] }

abbrev pub is_empty : Stats → Bool
is_empty st = elim st.scripts [ [] ↦ true | e ∷ l ↦ false ]

abbrev pub no_value : Value
no_value = record { started = 0; success = 0; errors = 0 }

abbrev pub zeros : List String → Dict Script → Dict Script
zeros [] d = d
zeros (k ∷ l) d =
    zeros l (insert k (record { preexec = no_value; loadgen = no_value; postexec = no_value }) d)

-- `error_template`, with the scripts that the file names.
unfoldable pub read_template : List String → Sampler → Sampler
read_template scripts s =
    if is_empty s.error_template && s.has_stat_file
    then record s { error_template = record { time = 0; scripts = zeros scripts [] } }
    else s

abbrev pub is_positive : ℕ → Bool
is_positive n = ltb 0 n

abbrev pub next_phase : Script → TrafficPhase → TrafficPhase
next_phase v postexec = postexec
next_phase v loadgen = if is_positive v.postexec.started then postexec else loadgen
next_phase v preexec =
    if is_positive v.postexec.started
    then postexec
    else if is_positive v.loadgen.started
    then loadgen
    else preexec

-- The loop over the lines, `none` where it raises: at a line whose script or time cannot be read, or at
-- a script that the template does not have.
unfoldable pub read_lines : List (Option Line) → TrafficPhase → Stats → Option TrafficPhase × Stats
read_lines [] p st = (some p, st)
read_lines (none ∷ l) p st = (none, st)
read_lines (some n ∷ l) p st =
    let rest =
      read_lines l (next_phase n.values p)
        (record { time = n.time; scripts = modify n.script (λ _. n.values) st.scripts }) in
    elim (lookup n.script st.scripts) [ none ↦ (none, record st { time = n.time }) | some v ↦ rest ]

abbrev pub with_lines : Option TrafficPhase × Stats → Sampler → Sampler
with_lines (none, st) s = record s { error_template = st; current_stats = empty }
with_lines (some p, st) s = record s {
  bat = record s.bat { traffic_phase = p };
  error_template = st;
  current_stats = st;
}

abbrev pub with_answer : Option (List (Option Line)) → Sampler → Sampler
with_answer none s = record s { current_stats = empty }
with_answer (some l) s = with_lines (read_lines l s.bat.traffic_phase s.error_template) s

-- What the node answers: the scripts, and the last lines of the file unless the command fails.
pub record Answer : Type 0 where
  pub scripts : List String
  pub lines : Option (List (Option Line))

unfoldable pub get_current_stats : Answer → Sampler → Sampler
unfolding read_template read_lines
get_current_stats a s =
    if s.has_stat_file
    then (let s' = read_template a.scripts s in
        if is_empty s'.error_template then s' else with_answer a.lines s')
    else s

-- The traffic cases since the last sample, or what ends the loop over the scripts.
pub data Totals : Type 0 where
  totals : ℤ → ℤ → Totals
  missing_script no_division : Totals

abbrev pub is_zero : ℤ → Bool
is_zero i = eqb (magnitude i) 0

abbrev pub add_script : ℤ → ℤ → Totals → Totals
add_script executed errors missing_script = missing_script
add_script executed errors no_division = no_division
add_script executed errors (totals e f) = totals (executed +ℤ e) (errors +ℤ f)

-- A rate of errors is computed for a script with errors.
abbrev pub count_script : Value → Value → Totals → Totals
count_script now before rest =
    let errors = pos now.errors -ℤ pos before.errors in
    let success = pos now.success -ℤ pos before.success in
    if not (is_zero errors) && is_zero (errors +ℤ success)
    then no_division
    else add_script (errors +ℤ success) errors rest

abbrev pub count_found : TrafficPhase → Option Script → Option Script → Totals → Totals
count_found p none o rest = missing_script
count_found p (some v) none rest = missing_script
count_found p (some v) (some w) rest = count_script (value_in p v) (value_in p w) rest

unfoldable pub count_scripts : TrafficPhase → Stats → Stats → List String → Totals
count_scripts p now before [] = totals (pos 0) (pos 0)
count_scripts p now before (k ∷ l) =
    count_found p (lookup k now.scripts) (lookup k before.scripts) (count_scripts p now before l)

abbrev pub first_stats : Sampler → Sampler
first_stats s = if is_empty s.last_stats then record s { last_stats = s.error_template } else s

abbrev pub register_totals : ℤ → ℤ → Sampler → Sampler
register_totals executed errors s = record s {
  bat = if is_zero executed then s.bat else error_db_update_register executed errors s.bat;
  last_stats = s.current_stats;
}

-- check_result takes a KeyError for a result without errors.
abbrev pub with_totals : Totals → Sampler → Result (Unit {0}) × Sampler
with_totals missing_script s = (ok tt, s)
with_totals no_division s = (err division_error, s)
with_totals (totals executed errors) s = (
  ok tt,
  if ltb_ℤ (pos s.current_stats.time -ℤ pos s.last_stats.time) (pos s.sampling_time)
      then s
      else register_totals executed errors s,
)

unfoldable pub update_errors_info : Answer → Sampler → Result (Unit {0}) × Sampler
unfolding get_current_stats count_scripts
update_errors_info a s =
    let s' = get_current_stats a s in
    if is_empty s'.current_stats
    then (ok tt, s')
    else (let s'' = first_stats s' in
        with_totals
          (count_scripts s''.bat.traffic_phase s''.current_stats s''.last_stats
            (keys s''.current_stats.scripts))
          s'')

unfoldable pub check_result : Answer → Sampler → Result (Unit {0}) × Sampler
unfolding update_errors_info
check_result a s = if s.bat.enable s.bat.traffic_phase then update_errors_info a s else (ok tt, s)
