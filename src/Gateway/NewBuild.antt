-- ===== src/Gateway/NewBuild.antt =====
-- The trigger of a new build, from the message to the queue.
use mathlib.Core.Path.{subst}
use st_tools.Prelude.{
  ◌≡◌, refl, sym, ap, ◌∙◌, String, Bool, true, false, Option, none, some, List, [], ◌∷◌, ◌++◌, map,
  get_or, arith, eq_refl, append_assoc,
}
use st_tools.Prelude.Dict.{lookup, has, lookup-insert}
use st_tools.Prelude.Exec.{Exn, ok}
use st_tools.Json.{Value, Elements, Fields, arr, cons, obj}
use st_tools.BuildHandler.{Build, Service, not_tested, update_db}
use st_tools.BuildHandler.Queue.Enqueued.{IsQueued, priority_add_known}
use st_tools.BuildHandler.Builds.{build_info_add}
use st_tools.Gateway.{Gateway, Message, Reply, Event, check_priority_list, forwarded, executed}
use st_tools.Gateway.Actions.{Action, act, forget, first_info, installed}
use st_tools.Gateway.Server.{
  Request, forward_to, write, first_unknown, execute, outcome, perform, run_actions, serve_actions,
  serve,
}
use st_tools.Gateway.Replies.{reply_to, write-sent}

-- The entry of a build that was just added.
abbrev pub fresh : Value → Build
fresh i = record { test_info = i; test_result = []; status = not_tested }

build_info_add_new :
    (b : String) (i : Value) (s : Service)
    → has b s.db.build_info ≡ false
    → let (r, t) = build_info_add b i s in
      (r ≡ ok true) × (lookup b t.db.build_info ≡ some (fresh i))
unfolding build_info_add update_db
build_info_add_new b i s new =
    ground (arith, lookup-insert b b (fresh i) s.db.build_info, eq_refl b)

-- The actions that the service's example configuration gives a new build.
abbrev pub new_build_actions : List String
new_build_actions = "build_info_add" ∷ "priority_add" ∷ "check_priority_list" ∷ []

perform_step :
    (a : String) (l : List String) (b : String) (i : Value) (x : Action) (g : Gateway)
    → installed a ≡ some x
    → (act x b i g).0 ≡ ok tt
    → perform (a ∷ l) b i g ≡ perform l b i (act x b i g).1
unfolding perform execute
perform_step a l b i x g e f = simp (e, f, perform, execute) refl

-- The build is known, with its information, and in the queue.
abbrev pub IsTaken : String → Fields → Service → Type 0
IsTaken b fs s = (lookup b s.db.build_info ≡ some (fresh (obj fs))) × IsQueued b s

-- The actions of a new build have all succeeded, and the controller is told.
abbrev AllDone : String → Fields → Gateway → Option (String × Exn) × Gateway → Type 0
AllDone b fs g (o, h) =
    (o ≡ none) × IsTaken b fs h.builds × (h.sent ≡ g.sent ++ check_priority_list ∷ [])

perform_new :
    (b : String) (fs : Fields) (vs : Elements) (g : Gateway)
    → has b g.builds.db.build_info ≡ false
    → AllDone b fs g (perform new_build_actions b (arr (cons (obj fs) vs)) g)
unfolding act first_info perform installed
perform_new b fs vs g new =
    let i = arr (cons (obj fs) vs) in
    let (added, stored) = build_info_add_new b (obj fs) g.builds new in
    let g1 = (act Action.build_info_add b i g).1 in
    let (queued, same, waits) = priority_add_known b g1.builds (ground arith) in
    rw
      (
        perform_step _ _ b i Action.build_info_add g refl (ap forget added),
        perform_step _ _ b i Action.priority_add g1 refl (ap forget queued),
      )
      (refl, (ap (lookup b) same ∙ stored, waits), refl)

write-builds : (a : Bool) (t : Reply) (g : Gateway) → (write a t g).builds ≡ g.builds
unfolding write
write-builds true t g = refl
write-builds false t g = refl

run_new :
    (r : Request) (fs : Fields) (vs : Elements) (g : Gateway)
    → r.args ≡ arr (cons (obj fs) vs)
    → has r.build g.builds.db.build_info ≡ false
    → let h = run_actions new_build_actions r g in
      IsTaken r.build fs h.builds
      × (h.sent ≡ g.sent ++ (check_priority_list ∷ reply_to r.answers (executed new_build_actions)))
unfolding run_actions
run_new r fs vs g args new =
    let (o, h) = perform new_build_actions r.build r.args g in
    let (succeeds, taken, told) =
      subst (λ i. AllDone r.build fs g (perform new_build_actions r.build i g)) (sym args)
        (perform_new r.build fs vs g new) in
    let reply = outcome new_build_actions o in
    (
      subst (IsTaken r.build fs) (sym (write-builds r.answers reply h)) taken,
      write-sent r.answers reply h
          ∙ ap (λ (l : List Event). l ++ reply_to r.answers reply) told
          ∙ append_assoc g.sent (check_priority_list ∷ []) (reply_to r.answers reply)
          ∙ ap
              (λ p.
                g.sent ++ (check_priority_list ∷ reply_to r.answers (outcome new_build_actions p)))
              succeeds,
    )

-- A gateway that gives a trigger the actions of a new build takes a message of that trigger, with
-- the information of a build that is not known: the build is then known, not tested, with that
-- information; it waits in its project; and after the message was forwarded the controller is told
-- to check the priority list, and a client that has asked for an answer that the actions have been
-- executed.
pub serve_new :
    (m : Message) (r : Request) (fs : Fields) (vs : Elements) (g : Gateway)
    → lookup r.trigger g.triggers ≡ some new_build_actions
    → r.args ≡ arr (cons (obj fs) vs)
    → has r.build g.builds.db.build_info ≡ false
    → let h = serve m r g in
      IsTaken r.build fs h.builds
      × (h.sent
          ≡ (g.sent ++ map (λ x. forwarded x m) g.forward_to)
            ++ (check_priority_list ∷ reply_to r.answers (executed new_build_actions)))
unfolding serve forward_to serve_actions first_unknown installed
serve_new m r fs vs g known args new =
    rw (ap (λ l. serve_actions (get_or l []) r (forward_to m g)) known)
      (run_new r fs vs (forward_to m g) args new)
