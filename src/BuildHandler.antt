-- ===== src/BuildHandler.antt =====
-- dbus/rtc_build_handler/build_handler/service.py: the database of builds, its file, and the
-- steps that the methods share. The methods stand in the modules below.
pub mod Naming
pub mod Queue
pub mod Builds
pub mod Baselines
pub mod Sweep
pub mod Invariant
pub mod Calls
pub mod Tests
use st_tools.Prelude.{
  String, Bool, true, false, ◌&&◌, not, Option, none, some, List, [], ◌∷◌, is_some, if◌then◌else◌,
}
use st_tools.Prelude.Dict.{Dict, modify}
use st_tools.Prelude.Exec.{Result, ok, err, io_error, value_error}
use st_tools.Json.{Value}

-- The texts that the code writes and tests as a status, and any other text.
pub data Status : Type 0 where
  not_tested test_ongoing tested skipped cancelled test_faulty : Status
  unlisted : String → Status

pub record Build : Type 0 where
  pub test_info : Value
  pub test_result : List Value
  pub status : Status

pub record Project : Type 0 where
  pub pending : List String
  pub high_priority : Option String

-- A stored database may lack the key `baselines`.
pub record Db : Type 0 where
  pub priority : Dict Project
  pub build_info : Dict Build
  pub baselines : Option (Dict String)

-- What stands at `DB_FILE`: `json.load` gives back what `json.dump` wrote.
pub data File : Type 0 where
  missing garbled : File
  stored : Db → File

pub record Service : Type 0 where
  pub db : Db
  pub file : File

unfoldable pub empty_db : Db
empty_db = record { priority = []; build_info = []; baselines = some [] }

unfoldable pub update_db : Service → Service
update_db s = record s { file = stored s.db }

-- `Handler.__init__`: a missing file is written, one that cannot be read stops the service.
unfoldable pub start : File → Result Service
unfolding empty_db update_db
start missing = ok (update_db (record { db = empty_db; file = missing }))
start garbled = err value_error
start (stored d) = ok (record { db = d; file = stored d })

unfoldable pub refresh_dbm_from_file : Service → Result Service
refresh_dbm_from_file s = elim s.file [
  | missing ↦ err io_error
  | garbled ↦ err value_error
  | stored d ↦ ok (record s { db = d })
]

abbrev pub set_priority : (Dict Project → Dict Project) → Service → Service
set_priority f s = record s { db = record s.db { priority = f s.db.priority } }

abbrev pub set_build_info : (Dict Build → Dict Build) → Service → Service
set_build_info f s = record s { db = record s.db { build_info = f s.db.build_info } }

abbrev pub set_status : String → Status → Service → Service
set_status build st = set_build_info (modify build (λ b. record b { status = st }))

abbrev is_idle : Project → Bool
is_idle p = elim p.pending [ [] ↦ not (is_some p.high_priority) | x ∷ l ↦ false ]

unfoldable pub drop_idle : Dict Project → Dict Project
drop_idle [] = []
drop_idle ((k, p) ∷ d) = let rest = drop_idle d in if is_idle p then rest else (k, p) ∷ rest

-- Projects with nothing queued are deleted.
unfoldable pub clean_priority : Service → Service
unfolding drop_idle
clean_priority = set_priority drop_idle
