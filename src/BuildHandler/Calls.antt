-- ===== src/BuildHandler/Calls.antt =====
-- The remote calls of the service that change its state, and a history of such calls. A call that
-- raises leaves what it has written by then.
pub mod Consistency
pub mod Saved
use st_tools.Prelude.{String, Bool, List, [], ◌∷◌}
use st_tools.Prelude.Exec.{Result, ok, err}
use st_tools.Json.{Value}
use st_tools.BuildHandler.{Status, Service, refresh_dbm_from_file}
use st_tools.BuildHandler.Queue.{priority_add, priority_del, priority_increase, get_build}
use st_tools.BuildHandler.Builds.{
  build_info_add, build_info_update, add_build_test_result, update_build_status, force_build_status,
  update_build_test_info,
}
use st_tools.BuildHandler.Baselines.{baseline_add, baseline_del}
use st_tools.BuildHandler.Sweep.{clean_build, purge_build}

pub data Call : Type 0 where
  refreshes gets_build : Call
  adds_info updates_info adds_result : String → Value → Call
  adds_priority increases_priority adds_baseline dels_baseline purges : String → Call
  dels_priority : String → Bool → Call
  updates_status forces_status : String → Status → Call
  updates_test_info : String → Value → Bool → Call
  cleans : String → String → Call

abbrev loaded : Service → Result Service → Service
loaded s (ok t) = t
loaded s (err e) = s

unfoldable pub step : Call → Service → Service
step refreshes s = loaded s (refresh_dbm_from_file s)
step gets_build s = (get_build s).1
step (adds_info b i) s = (build_info_add b i s).1
step (updates_info b i) s = (build_info_update b i s).1
step (adds_result b r) s = add_build_test_result b r s
step (adds_priority b) s = (priority_add b s).1
step (increases_priority b) s = (priority_increase b s).1
step (adds_baseline b) s = (baseline_add b s).1
step (dels_baseline n) s = baseline_del n s
step (purges w) s = (purge_build w s).1
step (dels_priority b u) s = priority_del b u s
step (updates_status b st) s = update_build_status b st s
step (forces_status b st) s = (force_build_status b st s).1
step (updates_test_info b t p) s = (update_build_test_info b t p s).1
step (cleans w x) s = (clean_build w x s).1

unfoldable pub run : List Call → Service → Service
run [] s = s
run (c ∷ cs) s = run cs (step c s)
