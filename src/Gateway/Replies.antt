-- ===== src/Gateway/Replies.antt =====
-- What the gateway sends for a message.
use st_tools.Prelude.{
  ◌≡◌, refl, sym, ap, ◌∙◌, String, Bool, true, false, List, [], ◌∷◌, ◌++◌, map, get_or, inl, inr,
  Option-cases, All, append_assoc, append-nil,
}
use st_tools.Prelude.Dict.{lookup}
use st_tools.Prelude.Exec.{Exec, Result, ok, err, Result-cases, continue}
use st_tools.Json.{Value}
use st_tools.BuildHandler.{Service}
use st_tools.BuildHandler.Builds
use st_tools.BuildHandler.Queue
use st_tools.Gateway.{
  Gateway, Message, Reply, Event, check_priority_list, set_test_to_faulty, priority_increase,
  forwarded, wrote, call,
}
use st_tools.Gateway.Actions
use st_tools.Gateway.Actions.{Action, act, done, first_info, installed}
use st_tools.Gateway.Server.{
  Request, forward_to, write, first_unknown, execute, outcome, perform, run_actions, serve_actions,
  serve,
}

-- A signal to the controller.
abbrev pub IsSignal : Event → Type 0
IsSignal check_priority_list = Unit
IsSignal (set_test_to_faulty b) = Unit
IsSignal (priority_increase b p) = Unit
IsSignal e = ⊥

-- Signals alone are sent from the one to the other.
abbrev pub Signals : List Event → List Event → Type 0
Signals l m = (es : List Event) × All IsSignal es × (m ≡ l ++ es)

Signals-nil : (l : List Event) → Signals l l
Signals-nil l = ([], tt, sym (append-nil l))

All-append : (es fs : List Event) → All IsSignal es → All IsSignal fs → All IsSignal (es ++ fs)
All-append [] fs h k = k
All-append (e ∷ es) fs h k = (h.0, All-append es fs h.1 k)

Signals-trans : (l : List Event) {m n : List Event} → Signals l m → Signals m n → Signals l n
Signals-trans l (es, a, e) (fs, b, f) =
    (es ++ fs, All-append es fs a b, f ∙ ap (λ (k : List Event). k ++ fs) e ∙ append_assoc l es fs)

call_with-Signals :
    (r : Result Value) (m : Value → Exec Service Bool) (g : Gateway)
    → Signals g.sent (continue r (λ t. done (call (m t))) g).1.sent
call_with-Signals (ok t) m g = Signals-nil g.sent
call_with-Signals (err e) m g = Signals-nil g.sent

act-Signals :
    (x : Action) (b : String) (i : Value) (g : Gateway) → Signals g.sent (act x b i g).1.sent
unfolding act
act-Signals Actions.build_info_add b i g =
    call_with-Signals (first_info i) (Builds.build_info_add b) g
act-Signals Actions.build_info_update b i g =
    call_with-Signals (first_info i) (Builds.build_info_update b) g
act-Signals Actions.check_priority_list b i g = (check_priority_list ∷ [], (tt, tt), refl)
act-Signals Actions.set_test_to_faulty b i g = (set_test_to_faulty b ∷ [], (tt, tt), refl)
act-Signals Actions.priority_increase b i g =
    elim (Result-cases (Queue.priority_increase b g.builds).0) [
      | inl (p, e) ↦ simp e (priority_increase b p ∷ [], (tt, tt), refl)
      | inr (n, e) ↦ simp e (Signals-nil g.sent)
    ]
act-Signals _ b i g = Signals-nil g.sent

perform-Signals :
    (l : List String) (b : String) (i : Value) (g : Gateway)
    → Signals g.sent (perform l b i g).1.sent
unfolding perform execute
perform-Signals [] b i g = Signals-nil g.sent
perform-Signals (a ∷ l) b i g = elim (Option-cases (installed a)) [
  | inl e ↦ simp (e, perform, execute) (Signals-nil g.sent)
  | inr (x, e) ↦ elim (Result-cases (act x b i g).0) [
    | inl (t, f) ↦
        simp (e, f, perform, execute)
          (Signals-trans g.sent (act-Signals x b i g) (perform-Signals l b i (act x b i g).1))
    | inr (n, f) ↦ simp (e, f, perform, execute) (act-Signals x b i g)
  ]
]

-- The one text for a client that has asked for an answer.
abbrev pub reply_to : Bool → Reply → List Event
reply_to true a = wrote a ∷ []
reply_to false a = []

pub write-sent : (b : Bool) (a : Reply) (g : Gateway) → (write b a g).sent ≡ g.sent ++ reply_to b a
unfolding write
write-sent true a g = refl
write-sent false a g = sym (append-nil g.sent)

-- Signals, and then the reply.
abbrev pub Replied : Bool → List Event → List Event → Type 0
Replied b l m = (es : List Event) × All IsSignal es × (a : Reply) × (m ≡ l ++ (es ++ reply_to b a))

serve_actions-Replied :
    (l : List String) (r : Request) (g : Gateway)
    → Replied r.answers g.sent (serve_actions l r g).sent
unfolding serve_actions run_actions
serve_actions-Replied [] r g = ([], tt, _, write-sent r.answers _ g)
serve_actions-Replied (a ∷ l) r g = elim (Option-cases (first_unknown (a ∷ l))) [
  | inl e ↦
      let (es, h, f) = perform-Signals (a ∷ l) r.build r.args g in
      let (o, g') = perform (a ∷ l) r.build r.args g in
      let reply = outcome (a ∷ l) o in
      simp (e, serve_actions)
        (
          es,
          h,
          reply,
          write-sent r.answers reply g'
              ∙ ap (λ (k : List Event). k ++ reply_to r.answers reply) f
              ∙ append_assoc g.sent es (reply_to r.answers reply),
        )
  | inr (x, e) ↦ simp (e, serve_actions) ([], tt, _, write-sent r.answers _ g)
]

-- A message is first forwarded to every host that is configured; then come signals to the
-- controller, and at the end, if the client has asked for an answer, exactly one text to it.
pub serve-sent :
    (m : Message) (r : Request) (g : Gateway)
    → Replied r.answers (g.sent ++ map (λ h. forwarded h m) g.forward_to) (serve m r g).sent
unfolding serve forward_to
serve-sent m r g =
    serve_actions-Replied (get_or (lookup r.trigger g.triggers) []) r (forward_to m g)
