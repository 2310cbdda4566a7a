-- ===== src/BuildHandler/Naming.antt =====
-- How a build's name gives its project and its release: `HSS-1.28.2.20` is a build of the project
-- `HSS-1.28.2` and of the release `HSS-1.28`, whose baseline is `1.28`.
use st_tools.Prelude.{String, get_or, last?, take, ◌≡◌, refl}
use st_tools.Prelude.Text.{split, join}

unfoldable pub get_project : String → String
unfolding split join
get_project build = join "." (take 3 (split b'.' build))

unfoldable pub get_release : String → String
unfolding split join
get_release build = join "." (take 2 (split b'.' build))

-- `release.split('-')[-1]`
unfoldable pub baseline_of : String → String
unfolding split
baseline_of release = get_or (last? (split b'-' release)) ""

names_of_a_build : baseline_of (get_release "HSS-1.28.2.20") ≡ "1.28"
unfolding baseline_of get_release
names_of_a_build = refl

project_of_a_build : get_project "HSS-1.28.2.20" ≡ "HSS-1.28.2"
unfolding get_project
project_of_a_build = refl
