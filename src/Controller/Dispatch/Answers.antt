-- ===== src/Controller/Dispatch/Answers.antt =====
-- What the service answers to rtc_cli.
use st_tools.Prelude.{
  ◌≡◌, refl, String, Bool, true, false, Option, List, [], ◌∷◌, ◌++◌, inl, inr, ap, Bool-cases,
}
use st_tools.Prelude.Exec.{Result, ok, err, key_error}
use st_tools.Json.{Value, truthy}
use st_tools.Controller.{World, Answer, Event, answer}
use st_tools.Controller.Launch.{baseline, returns, base_release, or_none}
use st_tools.Controller.Config
use st_tools.Controller.Config.{activated, names}
use st_tools.Controller.Cli
use st_tools.Controller.Releases
use st_tools.Controller.Cli.{Source, database, file, order_found}
use st_tools.Controller.Dispatch.{CliCommand, answer_cli}

-- When a command is sure to answer: the base release that it reads can be read.
abbrev pub IsAnswered : CliCommand → World → Type 0
IsAnswered (CliCommand.update_config cfg p) w = returns (baseline cfg) ≡ true
IsAnswered (CliCommand.del_baseline n c f) w = returns (baseline w.service_config) ≡ true
IsAnswered (CliCommand.fetch_baseline newer) w = returns (Releases.baseline_answer newer w) ≡ true
IsAnswered (CliCommand.force_build b s h l) w = Unit
IsAnswered _ w = Unit

-- One answer at the end of what is sent.
abbrev pub Answers : Option String → World → World → Type 0
Answers to w v = (a : Answer) × (v.sent ≡ w.sent ++ answer to a ∷ [])

abbrev pub sends_more : CliCommand → Bool
sends_more (CliCommand.force_build b s h l) = true
sends_more (CliCommand.resume) = true
sends_more c = false

same_end : (e : Event) {l m : List Event} → l ≡ m → l ++ e ∷ [] ≡ m ++ e ∷ []
same_end e h = ap (λ n. n ++ e ∷ []) h

accept_config-ok :
    (cfg : Value) (p : Bool) (r : Result Value) (w : World)
    → returns (or_none r) ≡ true
    → (a : Answer) × ((Config.accept_config cfg p r w).0 ≡ ok a)
      × ((Config.accept_config cfg p r w).1.sent ≡ w.sent)
unfolding Config.accept_config Config.save_service_config
accept_config-ok cfg true (ok b) w h = elim (Bool-cases (truthy b)) [
  | inl e ↦ elim (Bool-cases (Config.check_baseline b w)) [
    | inl f ↦ simp (e, f) (_, refl, refl)
    | inr f ↦ simp (e, f) (_, refl, refl)
  ]
  | inr e ↦ simp e (_, refl, refl)
]
accept_config-ok cfg false (ok b) w h = elim (Bool-cases (truthy b)) [
  | inl e ↦ elim (Bool-cases (Config.check_baseline b w)) [
    | inl f ↦ simp (e, f) (_, refl, refl)
    | inr f ↦ simp (e, f) (_, refl, refl)
  ]
  | inr e ↦ simp e (_, refl, refl)
]
accept_config-ok cfg true (err key_error) w h = (_, refl, refl)
accept_config-ok cfg false (err key_error) w h = (_, refl, refl)
accept_config-ok cfg p (err _) w h = cc

update_config-Answers :
    (to : Option String) (cfg : Value) (p : Bool) (w : World)
    → returns (baseline cfg) ≡ true
    → Answers to w (Config.update_config to cfg p w).1
unfolding Config.update_config baseline
update_config-Answers to cfg p w h =
    let (a, e, s) = accept_config-ok cfg p (base_release cfg) w h in
    elim (Bool-cases w.service_paused) [
      | inl q ↦ simp (q, e) (a, same_end _ s)
      | inr q ↦ simp q (_, refl)
    ]

activated-sent : (r : Result Value) (w : World) → (activated r w).sent ≡ w.sent
unfolding Config.save_service_config
activated-sent (ok c) w = refl
activated-sent (err e) w = refl

activate_baseline-Answers :
    (to : Option String) (n : String) (w : World) → Answers to w (Config.activate_baseline to n w)
unfolding Config.activate_baseline Config.save_service_config
activate_baseline-Answers to n w = (_, same_end _ (activated-sent _ w))

returned {ℓ} : {A : Type ℓ} (r : Result A) → returns r ≡ true → (a : A) × (r ≡ ok a)
returned (ok a) h = (a, refl)
returned (err e) h = cc

drop_active-Answers :
    (to : Option String) (n : String) (c g : Bool) (w : World)
    → Answers to w (Config.drop_active to n c g w)
unfolding Config.drop_active Config.drop_and_reply
drop_active-Answers to n c true w = (_, same_end _ (activated-sent _ w))
drop_active-Answers to n c false w = (_, refl)

del_baseline-Answers :
    (to : Option String) (n : String) (c g : Bool) (w : World)
    → returns (baseline w.service_config) ≡ true
    → Answers to w (Config.del_baseline to n c g w).1
unfolding Config.del_baseline Config.drop_and_reply
del_baseline-Answers to n c g w h =
    let (b, e) = returned (baseline w.service_config) h in
    elim (Bool-cases (names b n)) [
      | inl f ↦ simp (e, f) (drop_active-Answers to n c g w)
      | inr f ↦ simp (e, f) (_, refl)
    ]

fetch_baseline-Answers :
    (to : Option String) (newer : String → Bool) (w : World)
    → returns (Releases.baseline_answer newer w) ≡ true
    → Answers to w (Releases.fetch_baseline to newer w).1
unfolding Releases.fetch_baseline
fetch_baseline-Answers to newer w h =
    let (a, e) = returned (Releases.baseline_answer newer w) h in
    (a, simp (e, Releases.fetch_baseline) refl)

update_build_test_info-Answers :
    (to : Option String) (b : String) (t : Value) (p : Bool) (w : World)
    → Answers to w (Cli.update_build_test_info to b t p w)
unfolding Cli.update_build_test_info
update_build_test_info-Answers to b t p w = elim (Bool-cases w.service_paused) [
  | inl e ↦ simp e (_, refl)
  | inr e ↦ simp e (_, refl)
]

-- Every command of rtc_cli but `resume` and `force_build` sends exactly one event, its answer to
-- the caller. `update_config` does so if the base release can be read from the new configuration,
-- `del_baseline` if it can be read from the service's own, and `fetch_baseline` if the baselines
-- and, where there is one, the base release can be read.
pub answer_cli-Answers :
    (to : Option String) (c : CliCommand) (w : World)
    → sends_more c ≡ false
    → IsAnswered c w
    → Answers to w (answer_cli to c w)
unfolding answer_cli
answer_cli-Answers to CliCommand.status w f i = unfold Cli.status in (_, refl)
answer_cli-Answers to CliCommand.pause w f i = unfold Config.pause in (_, refl)
answer_cli-Answers to CliCommand.fetch_config w f i = unfold Config.fetch_config in (_, refl)
answer_cli-Answers to CliCommand.fetch_pending w f i = unfold Cli.fetch_pending in (_, refl)
answer_cli-Answers to CliCommand.fetch_builds w f i = unfold Cli.fetch_builds in (_, refl)
answer_cli-Answers to (CliCommand.fetch_baseline newer) w f i = fetch_baseline-Answers to newer w i
answer_cli-Answers to (CliCommand.update_config cfg p) w f i = update_config-Answers to cfg p w i
answer_cli-Answers to (CliCommand.activate_baseline n) w f i = activate_baseline-Answers to n w
answer_cli-Answers to (CliCommand.add_baseline b) w f i = unfold Config.add_baseline in (_, refl)
answer_cli-Answers to (CliCommand.del_baseline n c g) w f i = del_baseline-Answers to n c g w i
answer_cli-Answers to (CliCommand.fetch_build_test_info b) w f i =
    unfold Cli.fetch_build_test_info in (_, refl)
answer_cli-Answers to (CliCommand.fetch_build_test_result b) w f i =
    unfold Cli.fetch_build_test_result in (_, refl)
answer_cli-Answers to (CliCommand.clean_build x) w f i = unfold Cli.clean_build in (_, refl)
answer_cli-Answers to (CliCommand.purge_build x) w f i = unfold Cli.purge_build in (_, refl)
answer_cli-Answers to (CliCommand.update_build_test_info b t p) w f i =
    update_build_test_info-Answers to b t p w
answer_cli-Answers to (CliCommand.set_build_status b st) w f i =
    unfold Cli.set_build_status in (_, refl)
answer_cli-Answers to _ w f i = cc
