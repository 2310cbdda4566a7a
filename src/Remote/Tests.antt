-- ===== src/Remote/Tests.antt =====
-- Calls of a small service that counts.
use st_tools.Prelude.{◌≡◌, refl, ℕ, suc, String, Option, none, some, ◌==◌, if◌then◌else◌}
use st_tools.Prelude.Exec.{Exec, ok, err, attribute_error, run_error}
use st_tools.Json.{Value, Elements, Fields, num, nil, end}
use st_tools.Remote.{Member, method, returned, raises, plain, remote}

abbrev count : Elements → Fields → Exec ℕ Value
count args kwargs n = (ok (num n), suc n)

abbrev members : String → Option (Member ℕ)
members op = if op == "count" then some (method count) else none

counted : remote members attribute_error "count" nil end 3 ≡ (returned (num 3), 4)
unfolding remote
counted = refl

abbrev breaks : String → Option (Member ℕ)
breaks op = some (method (λ a k n. (err run_error, n)))

unknown_to_client : remote breaks attribute_error "count" nil end 3 ≡ (raises (plain run_error), 3)
unfolding remote
unknown_to_client = refl
