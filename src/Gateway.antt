-- ===== src/Gateway.antt =====
-- dbus/rtc_gateway/gateway/service.py: the state of the gateway and what it sends. The TCP server,
-- the actions and the command that changes a trigger stand in the modules below.
pub mod Actions
pub mod Server
pub mod Triggers
pub mod Replies
pub mod NewBuild
mod Tests
use st_tools.Prelude.{ℕ, String, Bool, Option, none, some, List, [], ◌∷◌, ◌++◌, get_or}
use st_tools.Prelude.Dict.{Dict}
use st_tools.Prelude.Exec.{Exec, Exn, Result, ok, err, value_error}
use st_tools.Json.{Value}
use st_tools.BuildHandler.{Service}

-- A line that holds an object: `op` and `build` are texts or not there.
pub record Message : Type 0 where
  pub op : Option String
  pub build : Option String
  pub args : Option Value
  pub request_answer : Option Value

-- A line of a connection, after `strip`: nothing, no JSON, a JSON value of another kind, an object.
pub data Line : Type 0 where
  empty garbled not_object : Line
  object : Message → Line

-- The texts that go back to the TCP client.
pub data Reply : Type 0 where
  no_actions not_allowed : String → Reply
  executed : List String → Reply
  failed : String → Exn → Reply

-- The texts that `update_trigger` sends to rtc_cli.
pub data TriggerAnswer : Type 0 where
  done trigger_not_valid operation_not_valid : TriggerAnswer
  not_in_allowed : String → TriggerAnswer

-- What leaves the gateway: D-Bus signals, the attempt to forward a message, and texts.
pub data Event : Type 0 where
  check_priority_list : Event
  set_test_to_faulty : String → Event
  priority_increase : String → Bool → Event
  forwarded : String → Message → Event
  wrote : Reply → Event
  answer : String → TriggerAnswer → Event

-- What stands at `CFG_FILE`.
pub record Config : Type 0 where
  pub tcp_port : ℕ
  pub trigger_translator : Dict (List String)
  pub forward_to : Option (List String)

pub data ConfigFile : Type 0 where
  missing garbled : ConfigFile
  stored : Config → ConfigFile

pub record Gateway : Type 0 where
  pub triggers : Dict (List String)
  pub forward_to : List String
  pub config_file : ConfigFile
  pub builds : Service
  pub sent : List Event

abbrev pub default_port : ℕ
default_port = 10000

-- `save_config` writes no `forward_to`.
unfoldable pub save_config : Gateway → Gateway
save_config g = record g {
  config_file =
      stored
        (record { tcp_port = default_port; trigger_translator = g.triggers; forward_to = none });
}

-- `Handler.__init__`; the port that the file names is assigned to a local variable.
unfoldable pub init : ConfigFile → Service → Result Gateway
unfolding save_config
init missing b = ok (
    save_config
      (record { triggers = []; forward_to = []; config_file = missing; builds = b; sent = [] }))
init garbled b = err value_error
init (stored c) b = ok (record {
  triggers = c.trigger_translator;
  forward_to = get_or c.forward_to [];
  config_file = stored c;
  builds = b;
  sent = [];
})

abbrev pub emit : Event → Gateway → Gateway
emit e g = record g { sent = g.sent ++ e ∷ [] }

abbrev pub call {ℓ} : {A : Type ℓ} → Exec Service A → Exec Gateway A
call m g = let (r, b) = m g.builds in (r, record g { builds = b })
