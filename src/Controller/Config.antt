-- ===== src/Controller/Config.antt =====
-- The configuration of the service and its baseline.
use st_tools.Prelude.{String, Bool, true, false, Option, some, ◌==◌, if◌then◌else◌}
use Prim.Native.String.{◌++◌}
use st_tools.Prelude.Exec
use st_tools.Prelude.Exec.{
  Exec, Result, ok, err, Exn, key_error, type_error, no_baseline, io_error, value_error, pure, gets,
  lift, ◌>>=◌, ◌>>◌,
}
use st_tools.Json.{Value, null, text, truthy, get_item, set_item}
use st_tools.BuildHandler.{Service, refresh_dbm_from_file}
use st_tools.BuildHandler.Baselines.{fetch_baseline_test_info, baseline_add, baseline_del}
use st_tools.BuildHandler.Sweep.{clean_build}
use st_tools.Controller.{
  World, missing, garbled, stored, Answer, executed, not_paused, not_configured,
  no_base_release_warning, baseline_not_allowed, no_active_baseline_warning, active_baseline,
  failed, Event, answer, emit, call,
}
use st_tools.Controller.Launch.{base_release, baseline}

abbrev pub reply : Option String → Answer → World → World
reply to a = emit (answer to a)

-- `save_service_config`
unfoldable pub save_service_config : World → World
save_service_config w = record w { config_file = stored w.service_config }

abbrev save_if : Bool → World → World
save_if true w = save_service_config w
save_if false w = w

-- `check_baseline`: a baseline is a key of a dict of texts.
unfoldable pub check_baseline : Value → World → Bool
check_baseline (text b) w = elim (fetch_baseline_test_info b w.builds).0 [
  | ok i ↦ true
  | err e ↦ false
]
check_baseline v w = false

abbrev set_config : Value → Bool → World → World
set_config cfg persist w = save_if persist (record w { service_config = cfg })

-- What `update_config` does by the base release that the new configuration names.
unfoldable pub accept_config : Value → Bool → Result Value → World → Result Answer × World
unfolding check_baseline save_service_config
accept_config cfg persist (ok b) w =
    if truthy b
    then (if check_baseline b w
        then (ok executed, set_config cfg persist w)
        else (ok baseline_not_allowed, w))
    else (ok no_base_release_warning, set_config cfg persist w)
accept_config cfg persist (err key_error) w = (ok no_base_release_warning, set_config cfg persist w)
accept_config cfg persist (err e) w = (err e, w)

abbrev reply_with : Option String → Exec World Answer → Exec World (Unit {0})
reply_with to m = do a ← m; Exec.modify (reply to a)

unfoldable pub update_config : Option String → Value → Bool → Exec World (Unit {0})
unfolding accept_config base_release
update_config to cfg persist w =
    if w.service_paused
    then reply_with to (accept_config cfg persist (base_release cfg)) w
    else (ok tt, reply to not_paused w)

-- `self.__service_config['service_parameters']['base_release'] = b`
abbrev put_parameters : Value → Result Value → Result Value
put_parameters config (ok q) = set_item config "service_parameters" q
put_parameters config (err e) = err e

abbrev put_release : Value → Value → Result Value → Result Value
put_release config b (ok p) = put_parameters config (set_item p "base_release" b)
put_release config b (err e) = err e

unfoldable pub set_release : Value → Value → Result Value
set_release config b = put_release config b (get_item config "service_parameters")

abbrev pub activated : Result Value → World → World
activated (ok c) w = save_service_config (record w { service_config = c })
activated (err e) w = w

abbrev pub as_answer {ℓ} : {A : Type ℓ} → Result A → Answer
as_answer (ok a) = executed
as_answer (err e) = failed e

abbrev and_then {ℓ κ} : {A : Type ℓ} {B : Type κ} → Result A → Result B → Result B
and_then (ok a) r = r
and_then (err e) r = err e

unfoldable pub activate_baseline : Option String → String → World → World
unfolding set_release save_service_config
activate_baseline to name w =
    let found = (fetch_baseline_test_info name w.builds).0 in
    let changed = and_then found (set_release w.service_config (text name)) in
    reply to (as_answer changed) (activated changed w)

unfoldable pub add_baseline : Option String → String → World → World
add_baseline to build w = let (r, w') = call (baseline_add build) w in reply to (as_answer r) w'

-- `self.baseline == name`
abbrev pub names : Option Value → String → Bool
names (some (text b)) name = b == name
names o name = false

-- The builds of a release are removed after its baseline if they are to be.
unfoldable pub drop_baseline : String → Bool → Exec Service (Unit {0})
drop_baseline name clean = do
  Exec.modify (baseline_del name)
  if clean then (do clean_build ("HSS-" ++ name) ""; pure tt) else pure tt

-- The answer is that of the force, unless an error overwrites it.
abbrev or_failed : Answer → Result (Unit {0}) → Answer
or_failed a (ok t) = a
or_failed a (err e) = failed e

unfoldable pub drop_and_reply : Option String → String → Bool → Answer → World → World
drop_and_reply to name clean a w =
    let (r, w') = call (drop_baseline name clean) w in reply to (or_failed a r) w'

-- The active baseline goes only by force, and then none is active.
unfoldable pub drop_active : Option String → String → Bool → Bool → World → World
unfolding set_release save_service_config drop_and_reply
drop_active to name clean true w =
    drop_and_reply to name clean no_active_baseline_warning
      (activated (set_release w.service_config null) w)
drop_active to name clean false w = reply to (active_baseline name) w

unfoldable pub del_baseline : Option String → String → Bool → Bool → Exec World (Unit {0})
unfolding baseline
del_baseline to name clean force = do
  current ← gets (λ w. w.service_config)
  b ← lift (baseline current)
  Exec.modify (
      if names b name
      then drop_active to name clean force
      else drop_and_reply to name clean executed)

unfoldable pub fetch_config : Option String → World → World
fetch_config to w =
    reply to (if truthy w.service_config then Answer.value w.service_config else not_configured) w

unfoldable pub pause : Option String → World → World
pause to w = reply to executed (record w { service_paused = true })

-- The configuration is read again, and only then does the service run.
unfoldable pub reload : World → Answer × World
reload w = elim w.config_file [
  | missing ↦ (failed io_error, w)
  | garbled ↦ (failed value_error, w)
  | stored c ↦ (
    executed,
    emit Event.check_priority_list (record w { service_config = c; service_paused = false }),
  )
]

abbrev refreshed : Answer → Result Service → World → Answer × World
refreshed a (ok b) w = (a, record w { builds = b })
refreshed a (err e) w = (failed e, w)

unfoldable pub resume : Option String → World → World
unfolding reload refresh_dbm_from_file
resume to w =
    if truthy w.service_config
    then (let (a, w') = reload w in
        let (b, w'') = refreshed a (refresh_dbm_from_file w'.builds) w' in reply to b w'')
    else reply to not_configured w
