-- ===== src/Gateway/Triggers.antt =====
-- `update_trigger`: rtc_cli changes the actions of a trigger.
pub mod Restart
use st_tools.Prelude.{
  ◌≡◌, refl, String, Bool, true, false, Option, none, some, List, [], ◌∷◌, ◌++◌, arith, is_some,
}
use st_tools.Prelude.Dict.{Dict, lookup, insert, erase, has, IsDict}
use st_tools.Prelude.Exec.{Result, ok, err}
use st_tools.BuildHandler.{Service}
use st_tools.Gateway.{
  Gateway, TriggerAnswer, done, trigger_not_valid, operation_not_valid, not_in_allowed, Event,
  answer, emit, save_config, init,
}
use st_tools.Gateway.Actions.{installed}

-- The text of the operation.
pub data Operation : Type 0 where
  update delete other : Operation

-- One warning for each action that is not allowed.
unfoldable pub warn : String → List String → Gateway → Gateway
warn to [] g = g
warn to (a ∷ l) g =
    warn to l (elim (installed a) [ none ↦ emit (answer to (not_in_allowed a)) g | some x ↦ g ])

unfoldable pub delete_trigger : String → String → Gateway → Gateway
unfolding save_config
delete_trigger to trigger g = elim (lookup trigger g.triggers) [
  | none ↦ emit (answer to trigger_not_valid) g
  | some l ↦ emit (answer to done) (save_config (record g { triggers = erase trigger g.triggers }))
]

-- The trigger is stored whatever the warnings.
unfoldable pub update_trigger : String → Operation → String → List String → Gateway → Gateway
unfolding warn save_config delete_trigger
update_trigger to update trigger actions g =
    let g' = warn to actions g in
    emit (answer to done)
      (save_config (record g' { triggers = insert trigger actions g'.triggers }))
update_trigger to delete trigger actions g = delete_trigger to trigger g
update_trigger to other trigger actions g = emit (answer to operation_not_valid) g
