-- ===== src/Controller/Releases.antt =====
-- `fetch_baseline`: the baselines, with the release of the HSS that each stands for.
use st_tools.Prelude.{String, Bool, Option, none, some, List, [], ◌∷◌, get_or, last?, if◌then◌else◌}
use st_tools.Prelude.Text.{split, join}
use st_tools.Prelude.Exec.{Exec, Result, ok, err}
use st_tools.Json.{Value, text, get_item}
use st_tools.BuildHandler.Baselines.{baseline_list, fetch_baseline_test_info}
use st_tools.Controller.{
  World, Answer, BaselineData, of_build, not_available, baselines, no_baselines,
}
use st_tools.Controller.Launch.{baseline, then_get}
use st_tools.Controller.Config.{reply, names}

-- `l[2:]`
abbrev from_third : List String → List String
from_third (a ∷ b ∷ l) = l
from_third l = []

-- `s.split('_')[0]`
abbrev first_piece : List String → String
first_piece [] = ""
first_piece (a ∷ l) = a

-- The release that the name of a package holds.
unfoldable pub release_of_link : String → String
unfolding split join
release_of_link link =
    let pieces = from_third (split b'-' (get_or (last? (split b'/' link)) "")) in
    first_piece (split b'_' (join "/" pieces))

-- `newer` is the comparison with `HSS-1.28.2.20` by the package `packaging.version`.
unfoldable pub release_name : (String → Bool) → String → String → String
unfolding release_of_link split join
release_name newer build link =
    let release = release_of_link link in
    let named = if newer build then join "_" (split b'/' release) else release in
    join "_" (named ∷ get_or (last? (split b'-' build)) "" ∷ [])

-- `hss_release` gives `None` for information without the link.
abbrev of_link : (String → Bool) → String → Result Value → Option String
of_link newer build (ok (text link)) = some (release_name newer build link)
of_link newer build r = none

unfoldable pub hss_release : (String → Bool) → String → Value → Option String
unfolding release_name
hss_release newer build test_info =
    of_link newer build (then_get (get_item test_info "packages") "ESM_UP_link")

-- The text for a baseline without information names the active baseline.
abbrev data_of : (String → Bool) → Option Value → Result (String × Value) → BaselineData
data_of newer active (ok (build, test_info)) = of_build build (hss_release newer build test_info)
data_of newer active (err e) = not_available active

unfoldable pub baseline_data : (String → Bool) → Option Value → String → World → BaselineData
unfolding hss_release
baseline_data newer active name w = data_of newer active (fetch_baseline_test_info name w.builds).0

unfoldable pub list_baselines :
    (String → Bool) → Option Value → List String → World → List (String × Bool × BaselineData)
unfolding baseline_data
list_baselines newer active [] w = []
list_baselines newer active (b ∷ l) w =
    (b, names active b, baseline_data newer active b w) ∷ list_baselines newer active l w

-- What is answered once the baselines are known; without one the configuration is not read.
abbrev answer_for :
    (String → Bool) → Result (List String) → Result (Option Value) → World → Result Answer
answer_for newer (err e) active w = err e
answer_for newer (ok []) active w = ok no_baselines
answer_for newer (ok (b ∷ l)) (err e) w = err e
answer_for newer (ok (b ∷ l)) (ok active) w = ok (baselines (list_baselines newer active (b ∷ l) w))

unfoldable pub baseline_answer : (String → Bool) → World → Result Answer
unfolding list_baselines baseline
baseline_answer newer w = answer_for newer (baseline_list w.builds).0 (baseline w.service_config) w

abbrev replied : Option String → Result Answer → Exec World (Unit {0})
replied to (ok a) w = (ok tt, reply to a w)
replied to (err e) w = (err e, w)

unfoldable pub fetch_baseline : Option String → (String → Bool) → Exec World (Unit {0})
unfolding baseline_answer
fetch_baseline to newer w = replied to (baseline_answer newer w) w
