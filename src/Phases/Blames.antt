-- ===== src/Phases/Blames.antt =====
-- A step that ends the test case has said why.
use st_tools.Prelude.{
  String, ◌≡◌, ap, ◌∙◌, Bool, true, false, ◌||◌, Option, none, some, List, [], ◌∷◌, if◌then◌else◌,
  last?, map_option, ◌==◌,
}
use native.Mathlib.Omega.{arith}
use st_tools.Prelude.Text.{join}
use st_tools.Suite.{TestCase}
use st_tools.Suite.Execution.{case_at}
use st_tools.Phases.{
  Raised, exits, stops_on_fail, skips, Config, Answer, RtcData, Setup, Outcome, accuse, refusal,
  end_step, touches_verdict, step_type, translated, full_cmd, no_cmd,
}
use st_tools.Phases.Verdict.{judged, judged-last, last-snoc, blame-marked}
use st_tools.Phases.Run.{
  and_then, start, launch_error, end_launch, run_background, save_error, end_foreground,
  run_foreground, shell_text, or_no_cmd, run_typed, run_named, is_enabled, run_step, run_steps,
  unsaved, unknown_step,
}

-- The last message of the test case is that of the last faulty step, which is one of this phase.
abbrev pub SaysWhy : String → RtcData → TestCase → Type 0
SaysWhy phase d t =
    (cmd : String) × (info : String) × (last? t.failure_messages
      ≡ some (join "" (phase ∷ " " ∷ cmd ∷ ": " ∷ info ∷ [])))
    × (last? d.faulty_steps ≡ some (phase, (cmd, info)))

-- It ends the test case since a step is configured so.
abbrev pub Halts : Option Raised → Type 0
Halts (some exits) = Unit
Halts (some stops_on_fail) = Unit
Halts r = ⊥

abbrev Blames : String → Outcome → Type 0
Blames phase o =
    Halts o.0 → (t : TestCase) → case_at o.1.index o.1.rtc ≡ some t → SaysWhy phase o.1 t

accuse-SaysWhy :
    (c : Config) (phase cmd info : String) (d : RtcData) (t : TestCase)
    → touches_verdict c ≡ true
    → case_at (accuse c phase cmd info d).index (accuse c phase cmd info d).rtc ≡ some t
    → SaysWhy phase (accuse c phase cmd info d) t
unfolding accuse
accuse-SaysWhy c phase cmd info d t on e =
    let message = join "" (phase ∷ " " ∷ cmd ∷ ": " ∷ info ∷ []) in
    let d1 = judged (touches_verdict c) message c.repeat d in
    let (t0, e0, k) = blame-marked c.report_not_valid d1.index d1.rtc t e in
    (
      cmd,
      info,
      ap last? k ∙ judged-last (touches_verdict c) message c.repeat d t0 on e0,
      last-snoc d1.faulty_steps (phase, (cmd, info)),
    )

any_flag :
    (v s e r k : Bool)
    → Halts
        (if e then some exits else if s then some stops_on_fail else if k then some skips else none)
    → v || s || e || r ≡ true
any_flag v s true r k h = ground arith
any_flag v true false r k h = ground arith
any_flag v false false r true h = absurd h
any_flag v false false r false h = absurd h

refusal-touches : (c : Config) → Halts (refusal c) → touches_verdict c ≡ true
unfolding refusal
refusal-touches c h =
    any_flag c.add_to_verdict c.stop_on_fail c.exit_rtc_on_fail c.report_not_valid
      c.skip_phase_on_fail h

end_step-Blames :
    (b : Bool) (c : Config) (phase cmd info : String) (d : RtcData)
    → Blames phase (end_step b c phase cmd info d)
unfolding end_step
end_step-Blames true c phase cmd info d h t e =
    accuse-SaysWhy c phase cmd info d t (refusal-touches c h) e
end_step-Blames false c phase cmd info d h t e = absurd h

and_then-Blames :
    (phase : String) (o : Outcome) (f : RtcData → Outcome)
    → Blames phase o
    → ((d : RtcData) → Blames phase (f d))
    → Blames phase (and_then o f)
and_then-Blames phase (some r, d) f h k = h
and_then-Blames phase (none, d) f h k = k d

not_halted : (i : Option Bool) → Halts (map_option Raised.interrupted i) → ⊥
not_halted none h = h
not_halted (some again) h = h

start-Blames : (phase text : String) (a : Answer) (d : RtcData) → Blames phase (start text a d)
unfolding start
start-Blames phase text a d h t e = absurd (not_halted a.interrupt h)

end_launch-Blames :
    (o : Option String) (c : Config) (phase cmd : String) (d : RtcData)
    → Blames phase (end_launch o c phase cmd d)
end_launch-Blames none c phase cmd d = end_step-Blames false c phase cmd "" _
end_launch-Blames (some e) c phase cmd d = end_step-Blames true c phase cmd e d

end_foreground-Blames :
    (o : Option String) (c : Config) (a : Answer) (phase cmd : String) (d : RtcData)
    → Blames phase (end_foreground o c a phase cmd d)
unfolding unsaved
end_foreground-Blames none c a phase cmd d = end_step-Blames _ c phase cmd _ d
end_foreground-Blames (some e) c a phase cmd d = λ h t k. absurd h

choose-Blames :
    (phase : String) (b : Bool) (o o' : Outcome)
    → Blames phase o
    → Blames phase o'
    → Blames phase (if b then o else o')
choose-Blames phase true o o' h k = h
choose-Blames phase false o o' h k = k

run_background-Blames :
    (c : Config) (a : Answer) (phase cmd : String) (d : RtcData)
    → Blames phase (run_background c a phase cmd d)
unfolding run_background
run_background-Blames c a phase cmd d =
    and_then-Blames phase (start cmd a d) (λ d1. end_launch (launch_error a cmd) c phase cmd d1)
      (start-Blames phase cmd a d) (λ d1. end_launch-Blames (launch_error a cmd) c phase cmd d1)

run_foreground-Blames :
    (u : Setup) (c : Config) (a : Answer) (framework : Bool) (phase cmd : String) (d : RtcData)
    → Blames phase (run_foreground u c a framework phase cmd d)
unfolding run_foreground
run_foreground-Blames u c a framework phase cmd d =
    let text = shell_text framework cmd in
    and_then-Blames phase (start text a d) (λ d1. end_foreground (save_error u a) c a phase cmd d1)
      (start-Blames phase text a d) (λ d1. end_foreground-Blames (save_error u a) c a phase cmd d1)

or_no_cmd-Blames :
    (phase id : String) (o : Option String) (f : String → RtcData → Outcome) (d : RtcData)
    → ((text : String) → Blames phase (f text d))
    → Blames phase (or_no_cmd id o f d)
unfolding no_cmd
or_no_cmd-Blames phase id none f d k = λ h t e. absurd h
or_no_cmd-Blames phase id (some text) f d k = k text

run_typed-Blames :
    (u : Setup) (phase : String) (c : Config) (a : Answer) (id type_name : String) (d : RtcData)
    → Blames phase (run_typed u phase c a id type_name d)
unfolding run_typed unknown_step
run_typed-Blames u phase c a id type_name d =
    choose-Blames phase (type_name == "framework" || type_name == "external") _ _
      (or_no_cmd-Blames phase id (translated u c id) _ d (λ text.
        let cmd = full_cmd c d text in
        choose-Blames phase c.background _ _ (run_background-Blames c a phase cmd d)
          (run_foreground-Blames u c a (type_name == "framework") phase cmd d)))
      (choose-Blames phase (type_name == "function") _ _
        (or_no_cmd-Blames phase id (translated u c id) _ d (λ text h t e. absurd h))
        (λ h t e. absurd h))

run_named-Blames :
    (u : Setup) (phase : String) (c : Config) (a : Answer) (id : Option String) (d : RtcData)
    → Blames phase (run_named u phase c a id d)
run_named-Blames u phase c a none d = λ h t e. absurd h
run_named-Blames u phase c a (some id) d = run_typed-Blames u phase c a id (step_type u c id) d

run_step-Blames :
    (u : Setup) (phase : String) (c : Config) (a : Answer) (d : RtcData)
    → Blames phase (run_step u phase c a d)
unfolding run_step
run_step-Blames u phase c a d =
    choose-Blames phase (is_enabled c.enable d) (run_named u phase c a c.id d) (none, d)
      (run_named-Blames u phase c a c.id d) (λ h t e. absurd h)

run_steps-Blames :
    (u : Setup) (phase : String) (l : List (Config × Answer)) (d : RtcData)
    → Blames phase (run_steps u phase l d)
unfolding run_steps
run_steps-Blames u phase [] d = λ h t e. absurd h
run_steps-Blames u phase ((c, a) ∷ l) d =
    choose-Blames phase d.rtc.exit_test_case (none, d)
      (and_then (run_step u phase c a d) (λ d'. run_steps u phase l d')) (λ h t e. absurd h)
      (and_then-Blames phase (run_step u phase c a d) (λ d'. run_steps u phase l d')
        (run_step-Blames u phase c a d) (λ d'. run_steps-Blames u phase l d'))

-- If the steps of a phase end the test case, or the run, by a step that is configured to do so when it
-- fails, and the test case is in the suite, then the last of its failure messages names the phase, the
-- command and the error of a step, and the same step of this phase is the last faulty one.
pub run_steps-SaysWhy :
    (u : Setup) (phase : String) (l : List (Config × Answer)) (d : RtcData) (t : TestCase)
    → Halts (run_steps u phase l d).0
    → case_at (run_steps u phase l d).1.index (run_steps u phase l d).1.rtc ≡ some t
    → SaysWhy phase (run_steps u phase l d).1 t
run_steps-SaysWhy u phase l d t h e = run_steps-Blames u phase l d h t e
