-- ===== src/Gateway/Tests.antt =====
-- A gateway that knows the trigger of a new build, and what it does with a message.
use st_tools.Prelude.{◌≡◌, ◌⊎◌, refl, String, true, false, some, List, [], ◌∷◌, ◌++◌, map}
use st_tools.Prelude.Dict.{lookup, has}
use st_tools.Json.{Fields, arr, nil, cons, obj, field, end, text, bool}
use st_tools.BuildHandler.{Service, empty_db, missing}
use st_tools.Gateway.{
  Gateway, ConfigFile, Message, check_priority_list, forwarded, executed, not_allowed,
}
use st_tools.Gateway.Actions.{installed}
use st_tools.Gateway.Server.{Request, serve, first_unknown, write, forward_to}
use st_tools.Gateway.Triggers.{update, update_trigger}
use st_tools.Gateway.Triggers.Restart.{
  SameConfig, Restarts, update_trigger-Restarts, update_trigger_unknown,
}
use st_tools.Gateway.Replies.{Replied, reply_to, serve-sent}
use st_tools.Gateway.NewBuild.{new_build_actions, IsTaken, serve_new}

abbrev empty : Service
empty = record { db = empty_db; file = missing }

abbrev gateway : Gateway
gateway = record {
  triggers = ("new_build", new_build_actions) ∷ [];
  forward_to = "rtc-2" ∷ [];
  config_file = ConfigFile.missing;
  builds = empty;
  sent = [];
}

abbrev fields : Fields
fields = field "release" (text "1.28") end

abbrev message : Message
message = record {
  op = some "new_build";
  build = some "HSS-1.28.2.20";
  args = some (arr (cons (obj fields) nil));
  request_answer = some (bool true);
}

abbrev request : Request
request = record {
  trigger = "new_build";
  build = "HSS-1.28.2.20";
  args = arr (cons (obj fields) nil);
  answers = true;
}

trigger_known : lookup "new_build" gateway.triggers ≡ some new_build_actions
unfolding lookup
trigger_known = refl

build_unknown : has "HSS-1.28.2.20" empty_db.build_info ≡ false
unfolding lookup empty_db
build_unknown = refl

serve_new_example :
    IsTaken "HSS-1.28.2.20" fields (serve message request gateway).builds
    × ((serve message request gateway).sent
        ≡ ([] ++ map (λ x. forwarded x message) ("rtc-2" ∷ []))
          ++ (check_priority_list ∷ reply_to true (executed new_build_actions)))
serve_new_example = serve_new message request fields nil gateway trigger_known refl build_unknown

serve-sent_example :
    Replied true
      ([] ++ map (λ h. forwarded h message) ("rtc-2" ∷ []))
      (serve message request gateway).sent
serve-sent_example = serve-sent message request gateway

update_trigger-Restarts_example :
    SameConfig gateway (update_trigger "cli" update "faulty_build" ("priority_del" ∷ []) gateway)
    ⊎ Restarts (update_trigger "cli" update "faulty_build" ("priority_del" ∷ []) gateway) empty
update_trigger-Restarts_example =
    update_trigger-Restarts "cli" update "faulty_build" ("priority_del" ∷ []) gateway empty

abbrev misspelt : List String
misspelt = "build_info_add" ∷ "prioritty_add" ∷ []

misspelt_unknown : first_unknown misspelt ≡ some "prioritty_add"
unfolding first_unknown installed
misspelt_unknown = refl

update_trigger_unknown_example :
    (lookup "new_build" (update_trigger "cli" update "new_build" misspelt gateway).triggers
      ≡ some misspelt)
    × ((update_trigger "cli" update "new_build" misspelt gateway).builds ≡ empty)
    × (serve message request (update_trigger "cli" update "new_build" misspelt gateway)
        ≡ write request.answers
            (not_allowed "prioritty_add")
            (forward_to message (update_trigger "cli" update "new_build" misspelt gateway)))
update_trigger_unknown_example =
    update_trigger_unknown "cli" "new_build" "prioritty_add" misspelt message request gateway
      misspelt_unknown refl
