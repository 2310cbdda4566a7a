-- ===== src/Bat.antt =====
-- HSS_rtc/HSS_rtc_lib/components/bat_instance.py, `BAT_base`: a generator of traffic, with the traffic
-- that it counts for the monitor of errors.
pub mod Statistics
pub mod Run
pub mod Registers
mod Counts
mod Samples
mod Ends
mod Shutdown
mod Tests
use st_tools.Prelude.{
  ◌≡◌, ℕ, zero, suc, Bool, true, false, not, Option, none, some, List, [], ◌∷◌, ◌++◌, last?,
  if◌then◌else◌,
}
use st_tools.Prelude.Int.{ℤ, pos, ◌+ℤ◌}

pub data TrafficPhase : Type 0 where
  preexec loadgen postexec : TrafficPhase

-- A register of errors, less its start; it is open as long as its `stop` is ''.
pub record Register : Type 0 where
  pub is_open : Bool
  pub executed : ℤ
  pub errors : ℤ

-- `__error_db`
pub record ErrorDb : Type 0 where
  pub preexec : List Register
  pub loadgen : List Register
  pub postexec : List Register

abbrev pub of_phase : TrafficPhase → ErrorDb → List Register
of_phase preexec d = d.preexec
of_phase loadgen d = d.loadgen
of_phase postexec d = d.postexec

abbrev pub set_phase : TrafficPhase → List Register → ErrorDb → ErrorDb
set_phase preexec l d = record d { preexec = l }
set_phase loadgen l d = record d { loadgen = l }
set_phase postexec l d = record d { postexec = l }

-- A phase that the configuration `monitor_error` does not name is not enabled: the monitor asks for it
-- before it opens a register.
pub record Bat : Type 0 where
  pub traffic_phase : TrafficPhase
  pub error_db : ErrorDb
  pub enable : TrafficPhase → Bool

-- `__init__`
unfoldable pub new_bat : (TrafficPhase → Bool) → Bat
new_bat enable = record {
  traffic_phase = preexec;
  error_db = record { preexec = []; loadgen = []; postexec = [] };
  enable = enable;
}

abbrev pub is_registering : List Register → Bool
is_registering [] = false
is_registering (r ∷ []) = r.is_open
is_registering (r ∷ s ∷ l) = is_registering (s ∷ l)

unfoldable pub error_db_registering : Bat → Bool
error_db_registering b = is_registering (of_phase b.traffic_phase b.error_db)

unfoldable pub error_db_open_register : TrafficPhase → Bat → Bat
error_db_open_register phase b =
    if b.enable phase
    then record b {
      error_db =
          set_phase phase
            (of_phase phase b.error_db
              ++ record { is_open = true; executed = pos 0; errors = pos 0 } ∷ [])
            b.error_db;
    }
    else b

-- The last register of a list is written.
abbrev pub write_last : (Register → Register) → List Register → List Register
write_last f [] = []
write_last f (r ∷ []) = f r ∷ []
write_last f (r ∷ s ∷ l) = r ∷ write_last f (s ∷ l)

abbrev pub write_register : (Register → Register) → Bat → Bat
write_register f b = record b {
  error_db =
      set_phase b.traffic_phase (write_last f (of_phase b.traffic_phase b.error_db)) b.error_db;
}

unfoldable pub error_db_close_register : Bat → Bat
unfolding error_db_registering
error_db_close_register b =
    if error_db_registering b then write_register (λ r. record r { is_open = false }) b else b

unfoldable pub error_db_update_register : ℤ → ℤ → Bat → Bat
unfolding error_db_registering
error_db_update_register executed errors b =
    if error_db_registering b
    then write_register
        (λ r. record r { executed = r.executed +ℤ executed; errors = r.errors +ℤ errors }) b
    else b

-- `error_db_read_register_counters`, of the last register, which every call reads.
abbrev pub counters : Option Register → ℤ × ℤ
counters none = (pos 0, pos 0)
counters (some r) = (r.executed, r.errors)

unfoldable pub error_db_read_register_counters : Bat → ℤ × ℤ
error_db_read_register_counters b = counters (last? (of_phase b.traffic_phase b.error_db))
