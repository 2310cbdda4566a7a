-- ===== src/Gateway/Server.antt =====
-- `TCP_Handler`: the messages of a connection and the actions of their triggers.
use st_tools.Prelude.{
  String, Bool, false, Option, none, some, List, [], ◌∷◌, ◌++◌, map, get_or, if◌then◌else◌,
}
use st_tools.Prelude.Dict.{lookup}
use st_tools.Prelude.Exec.{Exec, Exn, ok, err, key_error}
use st_tools.Json.{Value, arr, nil, bool, truthy}
use st_tools.Gateway.{
  Message, Line, empty, garbled, not_object, object, Reply, no_actions, not_allowed, executed,
  failed, forwarded, wrote, Gateway, emit,
}
use st_tools.Gateway.Actions.{installed, act}

pub record Request : Type 0 where
  pub trigger : String
  pub build : String
  pub args : Value
  pub answers : Bool

-- The part of `decode` after `json.loads`; `none` is `InvalidTcpMessage`.
unfoldable pub decode : Message → Option Request
decode m = elim m.op [
  | none ↦ none
  | some trigger ↦ elim m.build [
    | none ↦ none
    | some build ↦ some (record {
      trigger = trigger;
      build = build;
      args = get_or m.args (arr nil);
      answers = truthy (get_or m.request_answer (bool false));
    })
  ]
]

-- `forward_to`: what goes wrong on the way is logged.
unfoldable pub forward_to : Message → Gateway → Gateway
forward_to m g = record g { sent = g.sent ++ map (λ h. forwarded h m) g.forward_to }

unfoldable pub write : Bool → Reply → Gateway → Gateway
write answers a g = if answers then emit (wrote a) g else g

-- The first action that is not among those of the dispatcher.
unfoldable pub first_unknown : List String → Option String
first_unknown [] = none
first_unknown (a ∷ l) = elim (installed a) [ none ↦ some a | some x ↦ first_unknown l ]

unfoldable pub execute : String → String → Value → Exec Gateway (Unit {0})
execute a build args g = elim (installed a) [
  | none ↦ (err key_error, g)
  | some x ↦ act x build args g
]

-- The actions in their order, up to one that raises.
unfoldable pub perform : List String → String → Value → Gateway → Option (String × Exn) × Gateway
unfolding execute
perform [] build args g = (none, g)
perform (a ∷ l) build args g =
    let (r, g') = execute a build args g in
    elim r [ ok t ↦ perform l build args g' | err e ↦ (some (a, e), g') ]

abbrev pub outcome : List String → Option (String × Exn) → Reply
outcome actions none = executed actions
outcome actions (some (a, e)) = failed a e

unfoldable pub run_actions : List String → Request → Gateway → Gateway
unfolding perform write
run_actions actions r g =
    let (o, g') = perform actions r.build r.args g in write r.answers (outcome actions o) g'

unfoldable pub serve_actions : List String → Request → Gateway → Gateway
unfolding write first_unknown run_actions
serve_actions [] r g = write r.answers (no_actions r.trigger) g
serve_actions (a ∷ l) r g = elim (first_unknown (a ∷ l)) [
  | some x ↦ write r.answers (not_allowed x) g
  | none ↦ run_actions (a ∷ l) r g
]

-- The rest of the body of `handle`'s loop.
unfoldable pub serve : Message → Request → Gateway → Gateway
unfolding forward_to serve_actions
serve m r g = serve_actions (get_or (lookup r.trigger g.triggers) []) r (forward_to m g)

-- An empty line ends the connection, and so does the `TypeError` of a value that is no object.
unfoldable pub handle : List Line → Gateway → Gateway
unfolding decode serve
handle [] g = g
handle (empty ∷ l) g = g
handle (not_object ∷ l) g = g
handle (garbled ∷ l) g = handle l g
handle (object m ∷ l) g = elim (decode m) [ none ↦ handle l g | some r ↦ handle l (serve m r g) ]
