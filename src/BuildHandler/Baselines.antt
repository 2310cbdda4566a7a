-- ===== src/BuildHandler/Baselines.antt =====
-- The baselines: a build of reference for a release.
use st_tools.Prelude.{String, not, Option, none, some, List, [], ◌∷◌, map_option}
use st_tools.Prelude.Dict.{Dict, lookup, insert, erase, has, keys}
use st_tools.Prelude.Exec
use st_tools.Prelude.Exec.{
  Exec, Result, ok, err, unknown_build, no_baseline, no_test_info, key_error, pure, gets, or_raise,
  raise_if, ◌>>=◌, ◌>>◌,
}
use st_tools.Json.{Value}
use st_tools.BuildHandler.{Db, Service, update_db}
use st_tools.BuildHandler.Naming.{get_release, baseline_of}

-- `self.__db['baselines'][baseline]`; the error is `KeyError` for either key.
abbrev pub lookup_baseline : String → Db → Option String
lookup_baseline baseline d = elim d.baselines [ none ↦ none | some m ↦ lookup baseline m ]

unfoldable pub fetch_baseline_test_info : String → Exec Service (String × Value)
fetch_baseline_test_info baseline = do
  build ← or_raise (← gets (λ s. lookup_baseline baseline s.db)) (no_baseline baseline)
  b ← or_raise (← gets (λ s. lookup build s.db.build_info)) (no_test_info build)
  pure (build, b.test_info)

abbrev pub set_baselines : (Option (Dict String) → Option (Dict String)) → Service → Service
set_baselines f s = record s { db = record s.db { baselines = f s.db.baselines } }

-- `update`, or a new dict where the key is missing
unfoldable pub put_baseline : String → String → Option (Dict String) → Option (Dict String)
put_baseline baseline build none = some ((baseline, build) ∷ [])
put_baseline baseline build (some m) = some (insert baseline build m)

-- The text returned names the build and the baseline.
unfoldable pub baseline_add : String → Exec Service (String × String)
baseline_add build = do
  raise_if (not (has build (← gets (λ s. s.db.build_info)))) (unknown_build build)
  let baseline = baseline_of (get_release build)
  Exec.modify (set_baselines (put_baseline baseline build))
  Exec.modify update_db
  pure (build, baseline)

unfoldable pub baseline_del : String → Service → Service
baseline_del baseline s = update_db (set_baselines (map_option (erase baseline)) s)

unfoldable pub baseline_list : Exec Service (List String)
baseline_list = do m ← or_raise (← gets (λ s. s.db.baselines)) key_error; pure (keys m)
