-- ===== src/Remote.antt =====
-- hss_utils/src/dbus/services.py: how a service answers a request, and what a client makes of the
-- answer.
pub mod Call
mod Tests
use st_tools.Prelude.{String, Bool, true, false, ◌||◌, Option, none, some, ◌==◌, if◌then◌else◌}
use st_tools.Prelude.Exec.{
  Exec, Result, ok, err, Exn, unknown_build, already_exists, no_test_info, not_pending, no_baseline,
  run_error, configuration_error,
}
use st_tools.Json.{Value, Elements, Fields, text}

-- A request that is no object with an `op`, or a call.
pub data Request : Type 0 where
  wrong_format : Request
  calls : String → Elements → Fields → Request

pub data Response : Type 0 where
  bad_request : Response
  invalid_operation : String → Response
  raised : Exn → Response
  done : Value → Response

-- What `getattr` finds: a method, or a property, whose value is computed and may raise.
pub data Member (S : Type 0) : Type 0 where
  method : (Elements → Fields → Exec S Value) → Member S
  property : Exec S Value → Member S

-- The operations of the service's own class.
unfoldable pub is_protected : String → Bool
is_protected op = op == "start" || (op == "stop" || (op == "run" || op == "running"))

abbrev pub answered : {S : Type 0} → Result Value × S → Response × S
answered (ok v, s) = (done v, s)
answered (err e, s) = (raised e, s)

-- The member is called, or read.
abbrev pub use_member : {S : Type 0} → Member S → Elements → Fields → S → Result Value × S
use_member (method f) args kwargs s = f args kwargs s
use_member (property m) args kwargs s = m s

-- `__process_request__`; the members of the service are a parameter.
unfoldable pub process_request :
    {S : Type 0} → (String → Option (Member S)) → Exn → Request → S → Response × S
unfolding is_protected
process_request members missing wrong_format s = (bad_request, s)
process_request members missing (calls op args kwargs) s =
    if is_protected op
    then (invalid_operation op, s)
    else if op == "ping"
    then (done (text "pong"), s)
    else elim (members op) [
      | none ↦ (raised missing, s)
      | some x ↦ answered (use_member x args kwargs s)
    ]

-- What the client raises: the exception itself, where its class is known to the client; else an
-- `Exception` with its text, or with the text of an answer that names no class.
pub data ClientExn : Type 0 where
  again plain : Exn → ClientExn
  refused : Response → ClientExn

-- `eval` of the name of the class: `FaultyAction` and the exceptions of HSS_rtc are not known to the
-- client.
unfoldable pub rebuilt : Exn → ClientExn
rebuilt (unknown_build b) = plain (unknown_build b)
rebuilt (already_exists b) = plain (already_exists b)
rebuilt (no_test_info b) = plain (no_test_info b)
rebuilt (not_pending b) = plain (not_pending b)
rebuilt (no_baseline b) = plain (no_baseline b)
rebuilt run_error = plain run_error
rebuilt configuration_error = plain configuration_error
rebuilt e = again e

pub data Outcome : Type 0 where
  returned : Value → Outcome
  raises : ClientExn → Outcome

-- The part of the wrapper of `remote` after `send_request`.
unfoldable pub read_response : Response → Outcome
unfolding rebuilt
read_response (done v) = returned v
read_response (raised e) = raises (rebuilt e)
read_response r = raises (refused r)

-- A call through a client whose connection works.
unfoldable pub remote :
    {S : Type 0} → (String → Option (Member S)) → Exn → String → Elements → Fields → S → Outcome × S
unfolding process_request read_response
remote members missing op args kwargs s =
    let (r, s') = process_request members missing (calls op args kwargs) s in (read_response r, s')
