-- ===== src/ActionHandler/Actions.antt =====
-- What an action leaves as it is, until the end of `run`.
use st_tools.Prelude.{ℕ, Bool, true, false, not, ◌&&◌, List, [], ◌∷◌, if◌then◌else◌}
use st_tools.Prelude.Int.{ℤ, pos, ◌-ℤ◌, ltb_ℤ}
use st_tools.Prelude.Exec.{Result, ok, err}
use st_tools.ErrorMonitor.{Rate}
use st_tools.ActionHandler.{
  Action, Handler, Wait, reached, refused, waiting, died, triggered, fail_verdict,
  request_stop_phase, shutdown, is_timed,
}
use st_tools.ActionHandler.Orders.{read_udp_cmd, start_errors, stop_errors}
use st_tools.ActionHandler.Run.{
  Seen, get_return_code, command_ended, new_line, at_eof, timed_out, Event, Exit, ended, returned,
  raised, unfinished, run_cmd, meanwhile, end_command, spend_time, after_order, is_zero, Script,
  with_traffic, before_command, after_command, after_action, finish_action, on_trigger, run_action,
  enable_load, disable_load,
}
use st_tools.ActionHandler.Waits.{
  Same, SameIn, either, both, fail_verdict-Same, report_status-Same, shutdown-Same, triggered-Same,
  read_udp_cmd-Same,
}

module _ (w : Bool) where
  meanwhile-Same : (a : Action) (e : Event) (h : Handler) → Same w h → Same w (meanwhile a e h)
  meanwhile-Same a e h k =
      either w e.is_shut_down _ _ (shutdown-Same w a (record h { force_exit = e.force_exit }) k) k

  end_command-Same :
      (a : Action) (code : ℤ) (h : Handler) → Same w h → Same w (end_command a code h)
  end_command-Same a code h k =
      either w (is_zero code) (record h { error_code = code }) _ k
        (report_status-Same w a (fail_verdict a (record h { error_code = code }))
          (fail_verdict-Same w a (record h { error_code = code }) k))

  failed-Same : (a : Action) (h : Handler) → Same w h → Same w (shutdown a (fail_verdict a h))
  failed-Same a h k = shutdown-Same w a (fail_verdict a h) (fail_verdict-Same w a h k)

  spend_time-Same : (a : Action) (t : ℤ) (h : Handler) → Same w h → Same w (spend_time a t h)
  spend_time-Same a t h k = either w (is_timed a && ltb_ℤ t (pos 0)) _ _ (failed-Same a h k) k

  after_order-Same :
      (f : Handler → Exit × Handler) (r : Result (Unit {0}) × Handler)
      → SameIn w r
      → ((h : Handler) → Same w h → SameIn w (f h))
      → SameIn w (after_order f r)
  after_order-Same f (ok u, h) k g = g h k
  after_order-Same f (err e, h) k g = k

  run_cmd-Same :
      (under : Rate → ℕ → Bool) (a : Action) (left : ℤ) (l : List Event) (h : Handler)
      → Same w h
      → SameIn w (run_cmd under a left l h)
  unfolding run_cmd
  run_cmd-Same under a left [] h k = k
  run_cmd-Same under a left (e ∷ l) h k = both w (not h'.executing_cmd) _ _ k' (
      both w h'.force_exit _ _ k'
        (both w (not h'.has_node) _ _ k' (seen e.seen (λ t x g. run_cmd-Same under a t l x g))))
    where
      h' : Handler
      h' = meanwhile a e h

      k' : Same w h'
      k' = meanwhile-Same a e h k

      seen :
          (s : Seen)
          → ((t : ℤ) (x : Handler) → Same w x → SameIn w (run_cmd under a t l x))
          → SameIn w {A = Exit} (elim s [
            | command_ended x ↦ (ended, end_command a (get_return_code x) h')
            | new_line ↦ run_cmd under a left l h'
            | at_eof ↦ run_cmd under a left l (shutdown a (fail_verdict a h'))
            | timed_out t o ↦
                let left' = left -ℤ pos t in
                after_order
                  (λ x. run_cmd under a left' l (spend_time a left' x))
                  (read_udp_cmd under o a h')
          ])
      seen (command_ended x) ih = end_command-Same a (get_return_code x) h' k'
      seen new_line ih = ih left h' k'
      seen at_eof ih = ih left (shutdown a (fail_verdict a h')) (failed-Same a h' k')
      seen (timed_out t o) ih =
          after_order-Same (λ x. run_cmd under a (left -ℤ pos t) l (spend_time a (left -ℤ pos t) x))
            (read_udp_cmd under o a h') (read_udp_cmd-Same w under o a h' k')
            (λ x g.
              ih (left -ℤ pos t) (spend_time a (left -ℤ pos t) x)
                (spend_time-Same a (left -ℤ pos t) x g))

  with_traffic-Same :
      (b : Bool) (f : Handler → Handler) (h : Handler)
      → Same w h
      → Same w (f h)
      → Same w (with_traffic b f h)
  with_traffic-Same b f h k g = either w (h.executor.execution_with_traffic && b) _ _ g k

  before_command-Same : (a : Action) (h : Handler) → Same w h → Same w (before_command a h)
  before_command-Same a h k =
      with_traffic-Same a.stop_error_scenario_register stop_errors
        (with_traffic a.disable_load_monitor disable_load h)
        (with_traffic-Same a.disable_load_monitor disable_load h k k)
        (with_traffic-Same a.disable_load_monitor disable_load h k k)

  after_command-Same : (a : Action) (h : Handler) → Same w h → Same w (after_command a h)
  after_command-Same a h k =
      with_traffic-Same a.stop_error_scenario_register start_errors
        (with_traffic a.disable_load_monitor enable_load h)
        (with_traffic-Same a.disable_load_monitor enable_load h k k)
        (with_traffic-Same a.disable_load_monitor enable_load h k k)

  -- The state that a turn of the loop leaves.
  abbrev pub SameAfter : Exit × Bool × Handler → Type 0
  SameAfter r = Same w r.2

  third :
      (b : Bool) (x y : Exit × Bool × Handler)
      → SameAfter x
      → SameAfter y
      → SameAfter (if b then x else y)
  third true x y p q = p
  third false x y p q = q

  after_action-Same : (s : Script) (h : Handler) → Same w h → SameAfter (after_action s h)
  after_action-Same s h k = third (is_failed && not traffic) _ _ kept (
      third
        (traffic
          && ltb_ℤ (pos 1) s.action.time_running_traffic_after_execution
          && h'.running
          && s.is_forced_after)
        _ _ kept kept)
    where
      is_failed : Bool
      is_failed = s.action.stop_on_fail && not (is_zero h.error_code)

      traffic : Bool
      traffic = h.executor.execution_with_traffic

      h' : Handler
      h' =
          if is_failed
          then (let x = shutdown s.action h in if traffic then request_stop_phase x else x)
          else h

      kept : Same w h'
      kept =
          either w is_failed _ h
            (either w traffic (request_stop_phase (shutdown s.action h)) (shutdown s.action h)
              (shutdown-Same w s.action h k) (shutdown-Same w s.action h k))
            k

  finish_action-Same :
      (s : Script) (r : Exit × Handler) → SameIn w r → SameAfter (finish_action s r)
  finish_action-Same s (ended, h) k =
      after_action-Same s (after_command s.action h) (after_command-Same s.action h k)
  finish_action-Same s (returned, h) k = k
  finish_action-Same s (raised, h) k = k
  finish_action-Same s (unfinished, h) k = k

  on_trigger-Same :
      (under : Rate → ℕ → Bool) (s : Script) (r : Wait × Handler)
      → SameIn w r
      → SameAfter (on_trigger under s r)
  on_trigger-Same under s (reached, h) k =
      finish_action-Same s
        (run_cmd under s.action s.action.max_action_time s.events (before_command s.action h))
        (run_cmd-Same under s.action s.action.max_action_time s.events (before_command s.action h)
          (before_command-Same s.action h k))
  on_trigger-Same under s (refused, h) k = k
  on_trigger-Same under s (waiting, h) k = k
  on_trigger-Same under s (died, h) k = k

  pub run_action-Same :
      (under : Rate → ℕ → Bool) (s : Script) (h : Handler)
      → Same w h
      → SameAfter (run_action under s h)
  unfolding run_action
  run_action-Same under s h k = third h.force_exit _ _ k (
      on_trigger-Same under s
        (triggered s.action s.action.trigger_time s.action.max_trigger_time s.ticks h)
        (triggered-Same w s.action s.action.trigger_time s.action.max_trigger_time s.ticks h k))
