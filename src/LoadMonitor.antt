-- ===== src/LoadMonitor.antt =====
-- HSS_rtc/HSS_rtc_lib/components/monitor.py, `LoadMonitor`: whether the load of a node keeps to the
-- slots that it is given.
pub mod Registers
mod Tests
use st_tools.Prelude.{
  ℕ, zero, suc, ◌+◌, ◌-◌, ◌/◌, Bool, true, false, not, ◌&&◌, Option, none, some, List, [], ◌∷◌,
  ◌++◌, length, last?, leb, ltb, eqb, get_or, if◌then◌else◌,
}
use st_tools.Prelude.Int.{ℤ, pos, negsuc, ◌-ℤ◌, ltb_ℤ}

pub data State : Type 0 where
  new_slot stable not_stable : State

-- An entry of `__load_db`, less its texts.
pub record Register : Type 0 where
  pub state : State
  pub check : Bool

-- The `time` of a slot: -1, the -2 that `update_slot` makes of it, or seconds.
pub data SlotTime : Type 0 where
  until_end kept : SlotTime
  seconds : ℕ → SlotTime

-- `last_check` is a time after 0.
pub record Slot : Type 0 where
  pub time : SlotTime
  pub target_load : ℕ
  pub variance : ℕ
  pub transition : Option ℕ
  pub pending_time : ℤ
  pub last_check : ℕ

pub record Monitor : Type 0 where
  pub slot : Option Slot
  pub slots : List Slot
  pub load_samples : List ℕ
  pub target_load_reached : Bool
  pub current_load : ℕ
  pub load_db : List Register
  pub last_not_stable_time : ℕ
  pub is_enabled : Bool
  pub running : Bool
  pub reading_error : ℕ

abbrev pub target_load : Monitor → ℕ
target_load m = elim m.slot [ none ↦ 0 | some s ↦ s.target_load ]

abbrev pub tolerance : ℕ
tolerance = 5

abbrev pub transition : Monitor → ℕ
transition m = elim m.slot [ none ↦ 10 | some s ↦ get_or s.transition 10 ]

unfoldable pub load_in_range : Monitor → Bool
load_in_range m =
    leb (target_load m) (m.current_load + tolerance)
    && leb m.current_load (target_load m + tolerance)

abbrev pub sum : List ℕ → ℕ
sum [] = 0
sum (n ∷ l) = n + sum l

-- A deque of at most 15 samples.
abbrev pub drop_first : List ℕ → List ℕ
drop_first [] = []
drop_first (n ∷ l) = l

abbrev pub push : ℕ → List ℕ → List ℕ
push n l = (if ltb (length l) 15 then l else drop_first l) ++ n ∷ []

abbrev pub fifteen : ℕ → List ℕ
fifteen n = repeated 15 n
  where
    repeated : ℕ → ℕ → List ℕ
    repeated zero n = []
    repeated (suc k) n = n ∷ repeated k n

abbrev pub register : State → Monitor → Monitor
register s m = record m { load_db = m.load_db ++ record { state = s; check = m.is_enabled } ∷ [] }

-- `load_status`, of a monitor that is ready: whether it is this one.
abbrev pub is_stable : Option Register → Bool
is_stable none = false
is_stable (some r) = elim r.state [ new_slot ↦ false | stable ↦ true | not_stable ↦ false ]

abbrev pub is_not_stable : Option Register → Bool
is_not_stable none = false
is_not_stable (some r) = elim r.state [ new_slot ↦ false | stable ↦ false | not_stable ↦ true ]

abbrev pub report_load : Bool → ℕ → Monitor → Monitor
report_load true now m = if is_stable (last? m.load_db) then m else register stable m
report_load false now m =
    if is_not_stable (last? m.load_db)
    then m
    else register not_stable (record m { last_not_stable_time = now })

-- The load is from here on the mean of the samples.
abbrev pub sample : Monitor → Monitor
sample m =
    let samples = push m.current_load m.load_samples in
    record m { load_samples = samples; current_load = sum samples / length samples }

-- `check_load_stability` in a slot; `steady` is the test `np.var(samples) <= variance`.
unfoldable pub check_load_stability : (List ℕ → ℕ → Bool) → ℕ → Slot → Monitor → Monitor
unfolding load_in_range
check_load_stability steady now s m =
    if m.target_load_reached
    then (let m' = sample m in
        report_load (load_in_range m' && steady m'.load_samples s.variance) now m')
    else if load_in_range m
    then record m { target_load_reached = true }
    else m

unfoldable pub enable : Monitor → Monitor
enable m = record m { is_enabled = true }

unfoldable pub disable : Monitor → Monitor
disable m = record m { is_enabled = false }

unfoldable pub reconfigure : List Slot → Monitor → Monitor
reconfigure slots m = record m { slots = slots; slot = none }

-- The last register is not checked. There is one: before the first, the last time of no stability is
-- 0, which is long ago.
unfoldable pub uncheck_last : List Register → List Register
uncheck_last [] = []
uncheck_last (r ∷ []) = record r { check = false } ∷ []
uncheck_last (r ∷ s ∷ l) = r ∷ uncheck_last (s ∷ l)

unfoldable pub shutdown : ℕ → Monitor → Monitor
unfolding uncheck_last
shutdown now m =
    let db =
      if m.running && ltb (now - m.last_not_stable_time) (transition m)
      then uncheck_last m.load_db
      else m.load_db in
    record m { load_db = db; is_enabled = false; running = false }

-- `set_new_slot`; without another slot the monitor ends.
unfoldable pub set_new_slot : ℕ → List Slot → Monitor → Monitor
unfolding shutdown
set_new_slot now [] m = shutdown now m
set_new_slot now (s ∷ l) m = register new_slot (record m {
  slot = some (record s {
    pending_time = elim s.time [ until_end ↦ negsuc 0 | kept ↦ negsuc 1 | seconds n ↦ pos n ];
    last_check = now;
  });
  slots = l;
  load_samples = fifteen s.target_load;
  target_load_reached = false;
})

abbrev pub with_slot : Slot → Monitor → Monitor
with_slot s m = record m { slot = some s }

-- The time of a slot passes.
abbrev pub pass_time : ℕ → Slot → Monitor → Monitor
pass_time now s m =
    let left = s.pending_time -ℤ pos (now - s.last_check) in
    let s' = record s { pending_time = left; last_check = now } in
    let m' = record (with_slot s' m) {
      target_load_reached =
          if ltb_ℤ left (pos (get_or s.transition 10)) then false else m.target_load_reached;
    } in
    if ltb_ℤ left (pos 0) then set_new_slot now m'.slots m' else m'

abbrev pub update_from : ℕ → Slot → SlotTime → Monitor → Monitor
update_from now s until_end m = with_slot (record s { time = kept; last_check = now }) m
update_from now s kept m = with_slot (record s { last_check = now }) m
update_from now s (seconds n) m = pass_time now s m

-- `update_slot`
unfoldable pub update_slot : ℕ → Monitor → Monitor
unfolding set_new_slot
update_slot now m = elim m.slot [
  | none ↦ set_new_slot now m.slots m
  | some s ↦ update_from now s s.time m
]

-- What `run` does about a reading that fails.
unfoldable pub read_failed : ℕ → Monitor → Monitor
unfolding shutdown
read_failed now m =
    let m' = record m { reading_error = suc m.reading_error } in
    if ltb 3 m'.reading_error then shutdown now m' else m'

-- What `run` does with a load. The monitor has no slot after `update_slot` only when it has ended; the
-- check then raises for the target load, after the sample is taken.
unfoldable pub read_load : (List ℕ → ℕ → Bool) → ℕ → ℕ → Monitor → Monitor
unfolding update_slot check_load_stability read_failed
read_load steady now load m =
    let m' = update_slot now (record m { current_load = load }) in
    elim m'.slot [
      | none ↦ read_failed now (if m'.target_load_reached then sample m' else m')
      | some s ↦ check_load_stability steady now s m'
    ]

-- A turn of the loop of `run`, with what the loadplotter answers.
unfoldable pub turn : (List ℕ → ℕ → Bool) → ℕ → Option ℕ → Monitor → Monitor
unfolding read_load read_failed
turn steady now answer m =
    if m.running
    then elim answer [ none ↦ read_failed now m | some load ↦ read_load steady now load m ]
    else m

-- `__init__`, with the slots of the phase.
unfoldable pub new_monitor : List Slot → Monitor
new_monitor slots = record {
  slot = none;
  slots = slots;
  load_samples = [];
  target_load_reached = false;
  current_load = 0;
  load_db = [];
  last_not_stable_time = 0;
  is_enabled = true;
  running = false;
  reading_error = 0;
}

-- `run`, up to its loop.
unfoldable pub begin : ℕ → Monitor → Monitor
unfolding update_slot
begin now m = update_slot now (record m { running = true })
