-- ===== src/ActionHandler/Release.antt =====
-- When the handler lets EXECUTION go on.
use st_tools.Prelude.{◌≡◌, refl, ℕ, Bool, true, false, not, List, [], ◌∷◌, if◌then◌else◌}
use st_tools.Prelude.Int.{ℤ}
use st_tools.ErrorMonitor.{Rate}
use st_tools.ActionHandler.{
  Action, Handler, Tick, refused, triggered, request_stop_phase, on_executor, is_minus_one,
}
use st_tools.ActionHandler.Run.{
  Exit, ended, returned, raised, unfinished, Script, run_action, finish, next_action, run_all, run,
}
use st_tools.ActionHandler.Guarded.{choose, clash}
use st_tools.ActionHandler.Waits.{Same}
use st_tools.ActionHandler.Actions.{SameAfter, run_action-Same}

module _ (w : Bool) where
  -- At its end, `run` without traffic lets EXECUTION go on; otherwise it leaves it waiting as it was.
  abbrev pub Releases : Exit × Handler → Type 0
  Releases (ended, h) =
      h.executor.execution_with_traffic ≡ false → h.executor.wait_for_action_handler ≡ false
  Releases (x, h) = Same w h

  finish-Releases : (a : Action) (h : Handler) → Releases (ended, finish a h)
  finish-Releases a h = of_traffic h.executor.execution_with_traffic refl
    where
      of_traffic :
          (b : Bool)
          → h.executor.execution_with_traffic ≡ b
          → Releases (
            ended,
            if not b
                then on_executor (λ e. record e { wait_for_action_handler = false }) h
                else if is_minus_one a.time_running_traffic_after_execution
                then h
                else request_stop_phase h,
          )
      of_traffic false e = λ f. refl
      of_traffic true e =
          choose (λ (x : Handler). Releases (ended, x))
            (is_minus_one a.time_running_traffic_after_execution) h (request_stop_phase h)
            (λ f g. absurd (clash _ e g)) (λ f g. absurd (clash _ e g))

  next_action-Releases :
      (k : Handler → Exit × Handler) (s : Script) (r : Exit × Bool × Handler)
      → SameAfter w r
      → ((h : Handler) → Same w h → Releases (k h))
      → Releases (next_action k s r)
  next_action-Releases k s (ended, true, h) e f = finish-Releases s.action h
  next_action-Releases k s (ended, false, h) e f = f h e
  next_action-Releases k s (returned, b, h) e f = e
  next_action-Releases k s (raised, b, h) e f = e
  next_action-Releases k s (unfinished, b, h) e f = e

  run_all-Releases :
      (under : Rate → ℕ → Bool) (s : Script) (l : List Script) (h : Handler)
      → Same w h
      → Releases (run_all under s l h)
  unfolding run_all
  run_all-Releases under s [] h k =
      next_action-Releases (λ x. (ended, finish s.action x)) s (run_action under s h)
        (run_action-Same w under s h k) (λ x e. finish-Releases s.action x)
  run_all-Releases under s (s' ∷ l) h k =
      next_action-Releases (λ x. run_all under s' l x) s (run_action under s h)
        (run_action-Same w under s h k) (run_all-Releases under s' l)

-- Whatever happens to the actions of a handler: if its thread comes to the end of `run`, in an
-- execution without traffic, then EXECUTION does not wait for it any more. If the thread returns
-- before, raises or is not over yet, EXECUTION waits as before.
pub run-Releases :
    (under : Rate → ℕ → Bool) (s : Script) (l : List Script) (h : Handler)
    → Releases h.executor.wait_for_action_handler (run under s l h)
unfolding run
run-Releases under s l h =
    run_all-Releases h.executor.wait_for_action_handler under s l (record h { running = true }) refl

triggered-refused :
    (a : Action) (time max : ℤ) (l : List Tick) (h : Handler)
    → h.running ≡ false
    → triggered a time max l h ≡ (refused, h)
unfolding triggered
triggered-refused a time max [] h e = simp e refl
triggered-refused a time max (t ∷ l) h e = simp e refl

run_action-returned :
    (under : Rate → ℕ → Bool) (s : Script) (h : Handler)
    → h.running ≡ false
    → run_action under s h ≡ (returned, false, h)
unfolding run_action
run_action-returned under s h e =
    rw (triggered-refused s.action s.action.trigger_time s.action.max_trigger_time s.ticks h e) (
      choose (λ (r : Exit × Bool × Handler). r ≡ (returned, false, h)) h.force_exit _ _ (λ f. refl)
        (λ f. refl))

run_all-stopped :
    (under : Rate → ℕ → Bool) (s : Script) (l : List Script) (h : Handler)
    → h.running ≡ false
    → run_all under s l h ≡ (returned, h)
unfolding run_all
run_all-stopped under s [] h e = rw (run_action-returned under s h e) refl
run_all-stopped under s (s' ∷ l) h e = rw (run_action-returned under s h e) refl

-- A handler that an action leaves shut down, without a `break`: with another action to come, the thread
-- returns, so that EXECUTION waits for ever where it waited for the handler.
pub run_all-returned :
    (under : Rate → ℕ → Bool) (s s' : Script) (l : List Script) (h h' : Handler)
    → h.executor.wait_for_action_handler ≡ true
    → run_action under s h ≡ (ended, false, h')
    → h'.running ≡ false
    → (run_all under s (s' ∷ l) h ≡ (returned, h')) × (h'.executor.wait_for_action_handler ≡ true)
unfolding run_all
run_all-returned under s s' l h h' waits e stopped =
    (rw e (run_all-stopped under s' l h' stopped), rw e at (run_action-Same true under s h waits))
