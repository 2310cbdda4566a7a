-- ===== src/ActionHandler/Guarded.antt =====
-- While a command of an action that counts for the verdict runs: it runs, or the verdict is bad.
use st_tools.Prelude.{
  ◌≡◌, refl, arith, inr, ◌⊎◌, ℕ, Bool, true, false, not, ◌&&◌, ◌||◌, ◌==◌, Option, none, some, [],
  ◌∷◌, ◌++◌, last?, if◌then◌else◌,
}
use st_tools.Prelude.Int.{ℤ, pos, ltb_ℤ}
use st_tools.Prelude.Exec.{Result, err, run_error}
use st_tools.LoadMonitor.{is_stable}
use st_tools.ErrorMonitor.{Rate}
use st_tools.ActionHandler.{
  Action, Handler, fail_verdict, shutdown, stop_cmd, is_timed, ordered, check_failed,
}
use st_tools.ActionHandler.Orders.{
  reply, Order, cancel_action, add_info_to_summary, start_scenario_stable_check,
  stop_scenario_stable_check, other_order, read_udp_cmd, compare_rate, check_stopped, stop_check,
  start_errors, stop_check_errors,
}
use st_tools.ActionHandler.Run.{Event, meanwhile, spend_time}

-- The command runs, or the verdict is bad.
abbrev pub IsGuarded : Handler → Type 0
IsGuarded h = (h.executing_cmd ≡ true) ⊎ (h.executor.verdict ≡ false)

pub choose {ℓ κ} :
    {A : Type ℓ} (P : A → Type κ) (b : Bool) (x y : A)
    → (b ≡ true → P x)
    → (b ≡ false → P y)
    → P (if b then x else y)
choose P true x y p q = p refl
choose P false x y p q = q refl

abbrev pub Guards : Result (Unit {0}) × Handler → Type 0
Guards r = IsGuarded r.1

pub clash : (b : Bool) → b ≡ true → b ≡ false → ⊥
clash true h k = ground arith
clash false h k = ground arith

second : (b c : Bool) → (b && c) ≡ true → c ≡ true
second true c h = h
second false c h = ground arith

module _ (a : Action) (counts : a.add_to_verdict ≡ true) where
  pub fail_verdict-fails : (h : Handler) → (fail_verdict a h).executor.verdict ≡ false
  fail_verdict-fails h = rw counts refl

  stop_cmd-IsGuarded : (h : Handler) → h.has_node ≡ true → IsGuarded h → IsGuarded (stop_cmd a h)
  unfolding stop_cmd
  stop_cmd-IsGuarded h n g =
      choose IsGuarded h.has_node _ _
        (λ e. choose IsGuarded h.force_exit _ _ (λ f. g) (λ f. inr (fail_verdict-fails h)))
        (λ e. absurd (clash h.has_node n e))

  released :
      (h : Handler)
      → h.has_node ≡ true
      → IsGuarded h
      → IsGuarded (if h.executing_cmd then stop_cmd a h else h)
  released h n g = choose IsGuarded h.executing_cmd _ _ (λ e. stop_cmd-IsGuarded h n g) (λ e. g)

  shutdown-IsGuarded : (h : Handler) → IsGuarded h → IsGuarded (shutdown a h)
  unfolding shutdown
  shutdown-IsGuarded h g =
      choose IsGuarded (h.running && h.has_node)
        (let s = if h.executing_cmd then stop_cmd a h else h in
          record s { has_node = false; ready = false })
        h (λ e. released h (second h.running h.has_node e) g) (λ e. g)

  pub meanwhile-IsGuarded : (e : Event) (h : Handler) → IsGuarded h → IsGuarded (meanwhile a e h)
  meanwhile-IsGuarded e h g =
      choose IsGuarded e.is_shut_down _ _
        (λ x. shutdown-IsGuarded (record h { force_exit = e.force_exit }) g) (λ x. g)

  pub failed : (h : Handler) → IsGuarded (shutdown a (fail_verdict a h))
  failed h = shutdown-IsGuarded (fail_verdict a h) (inr (fail_verdict-fails h))

  pub spend_time-IsGuarded : (t : ℤ) (h : Handler) → IsGuarded h → IsGuarded (spend_time a t h)
  spend_time-IsGuarded t h g =
      choose IsGuarded (is_timed a && ltb_ℤ t (pos 0)) _ _ (λ x. failed h) (λ x. g)

  compared : (b c : Bool) (h : Handler) → IsGuarded h → Guards (compare_rate b c h)
  compared false c h g = g
  compared true c h g = choose Guards c _ _ (λ f. g) (λ f. g)

  check_stopped-IsGuarded :
      (under : Rate → ℕ → Bool) (h : Handler) → IsGuarded h → Guards (check_stopped under a h)
  check_stopped-IsGuarded under h g = checked (stop_check_errors a h) (
      choose (λ (r : Rate × Handler). IsGuarded r.1) a.stop_error_scenario_register _ _ (λ e. g)
        (λ e. g))
    where
      checked :
          (r : Rate × Handler)
          → IsGuarded r.1
          → Guards (
              if a.disable_load_monitor && not r.1.executor.load_ready
              then (err run_error, r.1)
              else if not a.disable_load_monitor
                  || is_stable (last? r.1.executor.load_monitor.load_db)
              then compare_rate r.1.executor.has_error_monitor
                  (under r.0 r.1.executor.error_monitor.error_rate)
                  r.1
              else reply check_failed r.1)
      checked r g =
          choose Guards (a.disable_load_monitor && not r.1.executor.load_ready) _ _ (λ e. g)
            (λ e.
              choose Guards
                (not a.disable_load_monitor || is_stable (last? r.1.executor.load_monitor.load_db))
                _ _
                (λ f.
                  compared r.1.executor.has_error_monitor
                    (under r.0 r.1.executor.error_monitor.error_rate) r.1 g)
                (λ f. g))

  stop_check-IsGuarded :
      (under : Rate → ℕ → Bool) (h : Handler) → IsGuarded h → Guards (stop_check under a h)
  stop_check-IsGuarded under h g =
      choose Guards (a.stop_error_scenario_register && not h.executor.has_error_monitor) _ _
        (λ e. g) (λ e. check_stopped-IsGuarded under h g)

  pub read_udp_cmd-IsGuarded :
      (under : Rate → ℕ → Bool) (o : Option Order) (h : Handler)
      → h.has_node ≡ true
      → IsGuarded h
      → IsGuarded (read_udp_cmd under o a h).1
  unfolding read_udp_cmd
  read_udp_cmd-IsGuarded under none h n g = g
  read_udp_cmd-IsGuarded under (some cancel_action) h n g =
      stop_cmd-IsGuarded (record h { replies = h.replies ++ ordered ∷ [] }) n g
  read_udp_cmd-IsGuarded under (some (add_info_to_summary none)) h n g = g
  read_udp_cmd-IsGuarded under (some (add_info_to_summary (some p))) h n g =
      choose Guards (not (p == "") && a.allow_info_to_summary) _ _ (λ e. g) (λ e. g)
  read_udp_cmd-IsGuarded under (some start_scenario_stable_check) h n g =
      choose Guards (a.disable_load_monitor || a.stop_error_scenario_register) _ _
        (λ e.
          choose IsGuarded (a.stop_error_scenario_register && h.executor.has_error_monitor)
            (start_errors h) h (λ f. g) (λ f. g))
        (λ e. g)
  read_udp_cmd-IsGuarded under (some stop_scenario_stable_check) h n g =
      stop_check-IsGuarded under h g
  read_udp_cmd-IsGuarded under (some other_order) h n g = g
