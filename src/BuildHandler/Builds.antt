-- ===== src/BuildHandler/Builds.antt =====
-- The builds of the database: their test information, results and status.
use st_tools.Prelude.{
  String, Bool, true, false, not, Option, none, some, List, [], ◌∷◌, ◌++◌, map, if◌then◌else◌,
}
use st_tools.Prelude.Dict.{lookup, insert, modify, has}
use st_tools.Prelude.Exec
use st_tools.Prelude.Exec.{
  Exec, Result, ok, err, already_exists, unknown_build, no_test_info, key_error, pure, gets, lift,
  or_raise, raise_if, ◌>>=◌, ◌>>◌,
}
use st_tools.Json.{Value, truthy, get_item, update}
use st_tools.Version.Sort.{sort}
use st_tools.BuildHandler.{
  Build, Status, not_tested, test_ongoing, tested, skipped, cancelled, test_faulty, unlisted,
  Service, set_build_info, set_status, update_db,
}

unfoldable pub build_info_add : String → Value → Exec Service Bool
build_info_add build info = do
  raise_if (has build (← gets (λ s. s.db.build_info))) (already_exists build)
  Exec.modify (
      set_build_info
        (insert build (record { test_info = info; test_result = []; status = not_tested })))
  Exec.modify update_db
  pure true

-- `if info[key]: t.update({key: info[key]})` under `except KeyError`
unfoldable pub copied : String → Value → Result Value → Result Value
copied key t (ok v) = if truthy v then update t key v else ok t
copied key t (err key_error) = ok t
copied key t (err e) = err e

unfoldable pub copy_key : String → Value → Value → Result Value
unfolding copied
copy_key key info t = copied key t (get_item info key)

abbrev pub set_test_info : String → Value → Service → Service
set_test_info build t = set_build_info (modify build (λ b. record b { test_info = t }))

-- One of the two updates, on the information that the build has by then.
unfoldable pub copy_info : String → String → Value → Exec Service (Unit {0})
unfolding copy_key
copy_info build key info = do
  b ← or_raise (← gets (λ s. lookup build s.db.build_info)) key_error
  t ← lift (copy_key key info b.test_info)
  Exec.modify (set_test_info build t)

unfoldable pub build_info_update : String → Value → Exec Service Bool
build_info_update build info = do
  b ← or_raise (← gets (λ s. lookup build s.db.build_info)) (unknown_build build)
  raise_if (not (truthy b.test_info)) (no_test_info build)
  copy_info build "packages" info
  copy_info build "GIT_repos" info
  Exec.modify update_db
  pure true

-- A test that was going on has ended.
abbrev pub ended : Status → Status
ended test_ongoing = tested
ended st = st

unfoldable pub add_result : Value → Build → Build
add_result r b = record b { status = ended b.status; test_result = b.test_result ++ r ∷ [] }

unfoldable pub add_build_test_result : String → Value → Service → Service
unfolding add_result
add_build_test_result build r s = elim (lookup build s.db.build_info) [
  | none ↦ s
  | some b ↦ update_db (set_build_info (modify build (add_result r)) s)
]

unfoldable pub get_build_test_result : String → Service → List Value
get_build_test_result build s = elim (lookup build s.db.build_info) [
  | none ↦ []
  | some b ↦ b.test_result
]

abbrev pub is_listed : Status → Bool
is_listed (unlisted t) = false
is_listed st = true

-- `d[build]['status'] = status` and `update_db`, or nothing for a build that is not there
unfoldable pub write_status : String → Status → Service → Service
write_status build st s = elim (lookup build s.db.build_info) [
  | none ↦ s
  | some b ↦ update_db (set_status build st s)
]

unfoldable pub update_build_status : String → Status → Service → Service
unfolding write_status
update_build_status build st s = if is_listed st then write_status build st s else s

-- The texts that `force_build_status` returns.
pub data StatusAnswer : Type 0 where
  not_valid not_found updated : StatusAnswer

abbrev pub can_force : Status → Bool
can_force cancelled = true
can_force skipped = true
can_force tested = true
can_force test_faulty = true
can_force st = false

unfoldable pub force_build_status : String → Status → Service → StatusAnswer × Service
unfolding write_status
force_build_status build st s =
    if can_force st
    then (
      elim (lookup build s.db.build_info) [ none ↦ not_found | some b ↦ updated ],
      write_status build st s,
    )
    else (not_valid, s)

-- `none` is the text `NOT FOUND`
unfoldable pub get_build_status : String → Service → Option Status
get_build_status build s = elim (lookup build s.db.build_info) [
  | none ↦ none
  | some b ↦ some b.status
]

unfoldable pub fetch_build : String → Exec Service Value
fetch_build build = do
  b ← or_raise (← gets (λ s. lookup build s.db.build_info)) key_error
  pure b.test_info

-- The two texts that `update_build_test_info` assigns to `answer`.
pub data InfoAnswer : Type 0 where
  build_not_found executed : InfoAnswer

-- The answer of the `try` statement is overwritten by the line below it.
unfoldable pub update_build_test_info : String → Value → Bool → Service → InfoAnswer × Service
update_build_test_info build t persist s =
    let s' = set_test_info build t s in (executed, if persist then update_db s' else s')

unfoldable pub fetch_available_builds : Service → List (String × Status)
fetch_available_builds s = map (λ (k, b). (k, b.status)) (sort s.db.build_info)
