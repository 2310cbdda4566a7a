-- ===== src/BuildHandler/Calls/Saved.antt =====
-- What a restart finds: the calls that leave the file equal to the memory.
use mathlib.Core.Path.{subst}
use st_tools.Version.Sort.{sort}
use st_tools.Prelude.{ℕ, sym, ◌≡◌, refl, ap, String, Bool, true, false, Option, none, some, arith}
use st_tools.Prelude.Dict.{Dict, has}
use st_tools.Prelude.Exec.{ok}
use st_tools.Json.{Value}
use st_tools.BuildHandler.{set_priority, Project, Service, stored, refresh_dbm_from_file, update_db}
use st_tools.BuildHandler.Queue.{
  priority_add, priority_del, finish_del, priority_increase, find_next_build, get_build, fetched,
  find_in, found, found_pending,
}
use st_tools.BuildHandler.Builds.{
  build_info_add, build_info_update, add_build_test_result, write_status, update_build_status,
  force_build_status, update_build_test_info,
}
use st_tools.BuildHandler.Baselines.{baseline_add, baseline_del}
use st_tools.BuildHandler.Sweep.{clean_build, purge_build}
use st_tools.BuildHandler.Calls.{
  Call, refreshes, gets_build, adds_info, updates_info, adds_result, adds_priority,
  increases_priority, adds_baseline, dels_baseline, purges, dels_priority, updates_status,
  forces_status, updates_test_info, cleans, step,
}

-- The file holds the database.
abbrev pub IsSaved : Service → Type 0
IsSaved s = s.file ≡ stored s.db

-- When a call is sure to write what it changes: new test information is to be kept, the build
-- whose status changes is known, and an update or a cleaning returns.
abbrev pub Writes : Call → Service → Type 0
Writes (updates_test_info b t p) s = p ≡ true
Writes (dels_priority b true) s = has b s.db.build_info ≡ true
Writes (updates_info b i) s = (r : Bool) × ((build_info_update b i s).0 ≡ ok r)
Writes (cleans w x) s = (n : ℕ) × ((clean_build w x s).0 ≡ ok n)
Writes _ s = Unit

fetched-IsSaved :
    (o : Option String) (high : Bool) (s t : Service)
    → (o ≡ none → t ≡ s)
    → IsSaved s
    → IsSaved (fetched o high t).1
unfolding update_db
fetched-IsSaved none high s t same h = subst IsSaved (sym (same refl)) h
fetched-IsSaved (some b) high s t same h = ground arith

find_in-none : (p q : Dict Project) → (find_in p q).build ≡ none → (find_in p q).queue ≡ q
unfolding find_in found found_pending
find_in-none p q e = ground arith

get_build-IsSaved : (s : Service) → IsSaved s → IsSaved (get_build s).1
unfolding get_build find_next_build
get_build-IsSaved s h =
    fetched-IsSaved _ _ s _
      (λ e. ap (λ q. set_priority (λ _. q) s) (find_in-none (sort s.db.priority) s.db.priority e)) h

build_info_update-IsSaved :
    (build : String) (info : Value) (s : Service) (r : Bool)
    → (build_info_update build info s).0 ≡ ok r
    → IsSaved (build_info_update build info s).1
unfolding build_info_update update_db
build_info_update-IsSaved build info s r e = ground arith

clean_build-IsSaved :
    (w x : String) (s : Service) (n : ℕ)
    → (clean_build w x s).0 ≡ ok n
    → IsSaved (clean_build w x s).1
unfolding clean_build update_db
clean_build-IsSaved w x s n e = ground arith

-- Where the file holds the database, it does so after any call that writes what it changes.
pub step-IsSaved : (c : Call) (s : Service) → Writes c s → IsSaved s → IsSaved (step c s)
unfolding step update_db
step-IsSaved refreshes s w h = unfold refresh_dbm_from_file in ground arith
step-IsSaved gets_build s w h = get_build-IsSaved s h
step-IsSaved (adds_info b i) s w h = unfold build_info_add in ground arith
step-IsSaved (updates_info b i) s w h = build_info_update-IsSaved b i s w.0 w.1
step-IsSaved (adds_result b r) s w h = unfold add_build_test_result in ground arith
step-IsSaved (adds_priority b) s w h = unfold priority_add in ground arith
step-IsSaved (increases_priority b) s w h = unfold priority_increase in ground arith
step-IsSaved (adds_baseline b) s w h = unfold baseline_add in ground arith
step-IsSaved (dels_baseline n) s w h = unfold baseline_del in refl
step-IsSaved (purges w) s _ h = unfold purge_build in refl
step-IsSaved (dels_priority b true) s w h = unfold priority_del finish_del in ground arith
step-IsSaved (dels_priority b false) s w h = unfold priority_del finish_del in ground arith
step-IsSaved (updates_status b st) s w h = unfold update_build_status write_status in ground arith
step-IsSaved (forces_status b st) s w h = unfold force_build_status write_status in ground arith
step-IsSaved (updates_test_info b t p) s w h = unfold update_build_test_info in ground arith
step-IsSaved (cleans w x) s r h = clean_build-IsSaved w x s r.0 r.1
