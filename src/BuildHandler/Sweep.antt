-- ===== src/BuildHandler/Sweep.antt =====
-- Removal of builds by the beginning of their names.
use st_tools.Prelude.{
  ℕ, ◌+◌, String, Bool, true, false, not, ◌&&◌, Option, none, some, List, [], ◌∷◌, contains, last?,
  starts_with, ◌==◌, if◌then◌else◌,
}
use st_tools.Prelude.Dict.{Dict, lookup, modify, erase, keys, values}
use st_tools.Prelude.Exec
use st_tools.Prelude.Exec.{
  Exec, Result, ok, err, key_error, raise, pure, gets, or_raise, ◌>>=◌, ◌>>◌,
}
use st_tools.Json.{Value}
use st_tools.BuildHandler.{
  Build, Status, test_ongoing, Service, set_build_info, clean_priority, update_db,
}
use st_tools.BuildHandler.Queue.{priority_del}

abbrev pub is_ongoing : Status → Bool
is_ongoing test_ongoing = true
is_ongoing st = false

-- A baseline keeps its information and loses its results; any other build goes.
unfoldable pub drop_build : String → Dict String → Dict Build → Dict Build
drop_build key m d =
    if contains key (values m)
    then modify key (λ b. record b { test_result = [] }) d
    else erase key d

unfoldable pub remove_build : String → Option (Dict String) → Exec Service ℕ
unfolding drop_build
remove_build key none = raise key_error
remove_build key (some m) = do Exec.modify (set_build_info (drop_build key m)); pure 1

-- The body of the loop from the removal from the queue on.
unfoldable pub sweep : String → Exec Service ℕ
unfolding remove_build
sweep key = do
  Exec.modify (priority_del key false)
  m ← gets (λ s. s.db.baselines)
  remove_build key m

-- A build under test is passed over.
unfoldable pub sweep_idle : String → Exec Service ℕ
unfolding sweep
sweep_idle key = do
  b ← or_raise (← gets (λ s. lookup key s.db.build_info)) key_error
  if is_ongoing b.status then pure 0 else sweep key

unfoldable pub clean_one : String → String → String → Exec Service ℕ
unfolding sweep_idle
clean_one wildcard exclude key =
    if starts_with key wildcard && not (key == exclude) then sweep_idle key else pure 0

unfoldable pub clean_loop : String → String → List String → ℕ → Exec Service ℕ
unfolding clean_one
clean_loop wildcard exclude [] counter = pure counter
clean_loop wildcard exclude (key ∷ rest) counter =
    clean_one wildcard exclude key >>= λ n. clean_loop wildcard exclude rest (counter + n)

-- The number that the text returned names.
unfoldable pub clean_build : String → String → Exec Service ℕ
clean_build wildcard exclude = do
  ks ← gets (λ s. keys s.db.build_info)
  n ← clean_loop wildcard exclude ks 0
  Exec.modify clean_priority
  Exec.modify update_db
  pure n

-- Only the newest result is kept.
unfoldable pub purged : List Value → List Value
purged [] = []
purged (v ∷ []) = v ∷ []
purged (v ∷ w ∷ l) = elim (last? (w ∷ l)) [ none ↦ [] | some x ↦ x ∷ [] ]

abbrev pub has_many : List Value → Bool
has_many (v ∷ w ∷ l) = true
has_many l = false

unfoldable pub purge_loop : String → Dict Build → Dict Build × ℕ
unfolding purged
purge_loop wildcard [] = ([], 0)
purge_loop wildcard ((k, b) ∷ d) =
    let (d', n) = purge_loop wildcard d in
    if starts_with k wildcard && has_many b.test_result
    then ((k, record b { test_result = purged b.test_result }) ∷ d', n + 1)
    else ((k, b) ∷ d', n)

unfoldable pub purge_build : String → Service → ℕ × Service
unfolding purge_loop
purge_build wildcard s =
    let (d, n) = purge_loop wildcard s.db.build_info in
    (n, update_db (clean_priority (set_build_info (λ _. d) s)))
