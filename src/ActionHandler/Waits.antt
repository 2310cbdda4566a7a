-- ===== src/ActionHandler/Waits.antt =====
-- EXECUTION without traffic waits until the handler says that it is over.
use st_tools.Prelude.{
  ◌≡◌, ℕ, Bool, true, false, not, ◌&&◌, ◌||◌, ◌==◌, Option, none, some, List, [], ◌∷◌, ◌++◌, last?,
  if◌then◌else◌,
}
use st_tools.Prelude.Int.{ℤ, pos, ◌-ℤ◌, ltb_ℤ}
use st_tools.Prelude.Exec.{err, run_error}
use st_tools.LoadMonitor.{is_stable}
use st_tools.ErrorMonitor.{Rate}
use st_tools.ActionHandler.{
  Action, Handler, Tick, triggered, tick, expire, is_load_there, fail_verdict, report_status,
  shutdown, stop_cmd, is_minus_one, ordered, check_failed,
}
use st_tools.ActionHandler.Orders.{
  reply, Order, cancel_action, add_info_to_summary, start_scenario_stable_check,
  stop_scenario_stable_check, other_order, read_udp_cmd, start_errors, compare_rate, check_stopped,
  stop_check, stop_check_errors,
}

module _ (w : Bool) where
  -- The executor waits, or not, as it did.
  abbrev pub Same : Handler → Type 0
  Same h = h.executor.wait_for_action_handler ≡ w

  abbrev pub SameIn {ℓ} : {A : Type ℓ} → A × Handler → Type 0
  SameIn r = Same r.1

  pub either : (b : Bool) (x y : Handler) → Same x → Same y → Same (if b then x else y)
  either true x y p q = p
  either false x y p q = q

  pub fail_verdict-Same : (a : Action) (h : Handler) → Same h → Same (fail_verdict a h)
  fail_verdict-Same a h e = either a.add_to_verdict _ _ e e

  pub report_status-Same : (a : Action) (h : Handler) → Same h → Same (report_status a h)
  report_status-Same a h e = either a.report_not_valid _ _ e e

  stop_cmd-Same : (a : Action) (h : Handler) → Same h → Same (stop_cmd a h)
  unfolding stop_cmd
  stop_cmd-Same a h e =
      either h.has_node _ _ (either h.force_exit _ _ e (fail_verdict-Same a h e)) e

  pub shutdown-Same : (a : Action) (h : Handler) → Same h → Same (shutdown a h)
  unfolding shutdown
  shutdown-Same a h e =
      either (h.running && h.has_node)
        (let s = if h.executing_cmd then stop_cmd a h else h in
          record s { has_node = false; ready = false })
        h (either h.executing_cmd (stop_cmd a h) h (stop_cmd-Same a h e) e) e

  expire-Same : (a : Action) (h : Handler) → Same h → Same (expire a h)
  expire-Same a h e = report_status-Same a (fail_verdict a h) (fail_verdict-Same a h e)

  module _ {ℓ} {A : Type ℓ} where
    pub both : (b : Bool) (x y : A × Handler) → SameIn x → SameIn y → SameIn (if b then x else y)
    both true x y p q = p
    both false x y p q = q

  pub triggered-Same :
      (a : Action) (time max : ℤ) (l : List Tick) (h : Handler)
      → Same h
      → SameIn (triggered a time max l h)
  unfolding triggered
  triggered-Same a time max [] h e = both (not h.running) _ _ e (both h.force_exit _ _ e e)
  triggered-Same a time max (t ∷ l) h e =
      let on = triggered-Same a (time -ℤ pos t.elapsed) (max -ℤ pos t.elapsed) l (tick t h) e in
      let again = triggered-Same a a.trigger_time (max -ℤ pos t.elapsed) l (tick t h) e in
      both (not h.running) _ _ e (
        both h.force_exit _ _ e (
          both (not (is_minus_one a.max_trigger_time) && ltb_ℤ (max -ℤ pos t.elapsed) (pos 0)) _ _
            (expire-Same a (tick t h) e)
            (both (is_minus_one a.trigger_load) _ _
              (both (ltb_ℤ (time -ℤ pos t.elapsed) (pos 0)) _ _ e on)
              (both (not h.executor.load_ready) _ _ e (
                both (is_load_there a (tick t h)) _ _
                  (both (ltb_ℤ (time -ℤ pos t.elapsed) (pos 0)) _ _ e on) again)))))

  compared : (b c : Bool) (h : Handler) → Same h → SameIn (compare_rate b c h)
  compared false c h g = g
  compared true c h g = both c _ _ g g

  check_stopped-Same :
      (under : Rate → ℕ → Bool) (a : Action) (h : Handler)
      → Same h
      → SameIn (check_stopped under a h)
  check_stopped-Same under a h e =
      checked (stop_check_errors a h) (both a.stop_error_scenario_register _ _ e e)
    where
      checked :
          (r : Rate × Handler)
          → SameIn r
          → SameIn (
              if a.disable_load_monitor && not r.1.executor.load_ready
              then (err run_error, r.1)
              else if not a.disable_load_monitor
                  || is_stable (last? r.1.executor.load_monitor.load_db)
              then compare_rate r.1.executor.has_error_monitor
                  (under r.0 r.1.executor.error_monitor.error_rate)
                  r.1
              else reply check_failed r.1)
      checked r g = both (a.disable_load_monitor && not r.1.executor.load_ready) _ _ g (
          both (not a.disable_load_monitor || is_stable (last? r.1.executor.load_monitor.load_db)) _
            _
            (compared r.1.executor.has_error_monitor
              (under r.0 r.1.executor.error_monitor.error_rate) r.1 g)
            g)

  stop_check-Same :
      (under : Rate → ℕ → Bool) (a : Action) (h : Handler) → Same h → SameIn (stop_check under a h)
  stop_check-Same under a h e =
      both (a.stop_error_scenario_register && not h.executor.has_error_monitor) _ _ e
        (check_stopped-Same under a h e)

  pub read_udp_cmd-Same :
      (under : Rate → ℕ → Bool) (o : Option Order) (a : Action) (h : Handler)
      → Same h
      → SameIn (read_udp_cmd under o a h)
  unfolding read_udp_cmd
  read_udp_cmd-Same under none a h e = e
  read_udp_cmd-Same under (some cancel_action) a h e =
      stop_cmd-Same a (record h { replies = h.replies ++ ordered ∷ [] }) e
  read_udp_cmd-Same under (some (add_info_to_summary none)) a h e = e
  read_udp_cmd-Same under (some (add_info_to_summary (some p))) a h e =
      both (not (p == "") && a.allow_info_to_summary) _ _ e e
  read_udp_cmd-Same under (some start_scenario_stable_check) a h e =
      both (a.disable_load_monitor || a.stop_error_scenario_register) _ _
        (either (a.stop_error_scenario_register && h.executor.has_error_monitor) (start_errors h) h
          e e)
        e
  read_udp_cmd-Same under (some stop_scenario_stable_check) a h e = stop_check-Same under a h e
  read_udp_cmd-Same under (some other_order) a h e = e
