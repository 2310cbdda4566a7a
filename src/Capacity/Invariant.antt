-- ===== src/Capacity/Invariant.antt =====
-- A refresh of the search moves between its states, and counts its steps and periods.
use mathlib.Core.Path.{subst}
use st_tools.Prelude.{
  ◌≢◌, ◌≡◌, refl, sym, ap, ◌∙◌, arith, Bool, true, false, not, ◌||◌, ltb, Option, none, some, List,
  [], ◌∷◌, ◌++◌, ℕ, suc, ◌≤◌, length, length-append, last?, if◌then◌else◌,
}
use st_tools.Prelude.Exec.{ok, err, index_error}
use st_tools.Scheduler.{Visit}
use st_tools.Capacity.{
  Capacity, Config, Tools, Reading, Fsm, initial, search, search_down, validate, finished,
  load_stable, give_up, Turn,
}
use st_tools.Capacity.Table.{finish}
use st_tools.Capacity.Plans.{as_is, plan_turn, plan_up, plan_down, plan_dc, candidate_of}
use st_tools.Capacity.Search.{
  turned, start, in_validate, in_search, in_search_down, start_dc, step_down, unlock_pl, by_state,
  measure, next_step, reached_limit, start_monitoring, stop_monitoring, validated_load,
}
use st_tools.Capacity.Orders.{Ordered, give_up-finished}
use st_tools.Capacity.States.{
  Moves, stays, turns, dimensions, Counts, IfOk, Next, if-IfOk, continue-IfOk, turned-IfOk,
  IfOk-map, finished-Next, finish-Ended,
}
use st_tools.Capacity.Periods.{
  order_loop-Stands, Stands, Stands-Next, start-Next, last?-append, load_stable-period,
}

-- In a state that stands, with as many periods as steps.
module _ (tools : Tools) (k : Config) (r : Reading) (late : 1 ≤ r.later) (m : ℕ)
    (v : k.max_load ≡ some m) where
  next_step-Next :
      (f g : Fsm) (l : List (Option ℕ)) (n : ℕ)
      → Moves f g
      → Counts (some m) g l (suc n) r.later
      → (c : Capacity) → Stands g l n c
      → IfOk (Next k f) (next_step r c)
  next_step-Next f g l n mv h c (a, b, d) =
      Stands-Next k f g
        (record (start_monitoring c) { nof_steps = suc c.nof_steps; last_time = r.later }) (some m)
        l (suc n) v (a, b, ap suc d) mv h

  turn-Next :
      (f g : Fsm) (l : List (Option ℕ)) (n : ℕ) (t : Turn × Capacity)
      → Moves f g
      → Counts (some m) g l (suc n) r.later
      → Ordered (Stands g l n) t
      → IfOk (Next k f) (turned (next_step r) t)
  turn-Next f g l n t mv h o =
      turned-IfOk (Next k f) (next_step r) t o (next_step-Next f g l n mv h) (finished-Next k f)

  finish-Next :
      (f : Fsm) (monitors : Capacity → Capacity) (c : Capacity)
      → ((d : Capacity) → (monitors d).fsm ≡ d.fsm)
      → IfOk (Next k f) (finish tools k monitors c)
  finish-Next f monitors c h =
      IfOk-map (Next k f) (finish tools k monitors c) (finished-Next k f)
        (finish-Ended tools k monitors h c)

  in_validate-Next :
      (stable : Bool) (load : Option ℕ) (c : Capacity)
      → IfOk (Next k validate) (in_validate tools k r stable load c)
  unfolding in_validate
  in_validate-Next stable load c =
      let d = record c { load = validated_load k load } in
      if-IfOk (Next k validate) (ltb k.max_error_rate r.tps_error_rate || not stable)
        (ok tt, give_up c) (finish tools k (λ u. u) d)
        (finished-Next k validate (give_up c) (give_up-finished c))
        (finish-Next validate (λ u. u) d (λ u. refl))

  limit-IfOk :
      (b : Bool) (x y : Turn × Capacity)
      → IfOk (Next k search) (turned (next_step r) x)
      → IfOk (Next k search) (turned (next_step r) y)
      → IfOk (Next k search) (turned (next_step r) (if b then x else y))
  limit-IfOk true x y h i = h
  limit-IfOk false x y h i = i

  in_search-Next :
      (stable : Bool) (load : Option ℕ) (vs : List Visit) (c : Capacity) (l : List (Option ℕ))
      (n : ℕ)
      → length l ≡ n
      → Stands search l n c
      → IfOk (Next k search) (in_search k r stable load vs c)
  unfolding in_search
  in_search-Next stable load vs c l n e (a, b, d) =
      limit-IfOk (reached_limit k r stable load) _ _
        (turn-Next search search_down l n _ turns (ap suc e, late)
          (order_loop-Stands search_down l n plan_turn
            (λ d u. record u { candidate = candidate_of d.used_target }) as_is (λ d u p. p)
            (λ d u p. p) vs (record c { fsm = search_down; rump_up = false }) (refl, b, d)))
        (turn-Next search search l n _ stays (ap suc e, late)
          (order_loop-Stands search l n plan_up as_is as_is (λ d u p. p) (λ d u p. p) vs c
            (a, b, d)))

  unlock_pl-Stands :
      (f : Fsm) (l : List (Option ℕ)) (n : ℕ) (c : Capacity)
      → Stands f l n c
      → Stands f l n (unlock_pl r.unlocks c).1
  unfolding unlock_pl
  unlock_pl-Stands f l n c h = ground arith

  start_dc-Next :
      (vs : List Visit) (c : Capacity) (l : List (Option ℕ)) (n : ℕ)
      → length l ≡ n
      → Stands search_down l n c
      → IfOk (Next k search_down) (start_dc k r vs c)
  unfolding start_dc
  start_dc-Next vs c l n e h =
      let u = (unlock_pl r.unlocks c).1 in
      continue-IfOk (Next k search_down) (unlock_pl r.unlocks c).0 _ u (
        turned-IfOk (Next k search_down) {Q = Stands search_down l n} _ _
          (order_loop-Stands search_down l n plan_dc as_is
            (λ d w. record w { candidate = some (length d.used_target) }) (λ d w p. p) (λ d w p. p)
            vs u (unlock_pl-Stands search_down l n c h))
          (λ w p.
            next_step-Next search_down validate l n dimensions (ap suc e, late)
              (record w { load_samples = []; fsm = validate; period = k.validation_time })
              (refl, p.1, p.2))
          (finished-Next k search_down))

  step_down-Next :
      (vs : List Visit) (c : Capacity) (l : List (Option ℕ)) (n : ℕ)
      → length l ≡ n
      → Stands search_down l n c
      → IfOk (Next k search_down) (step_down r vs c)
  unfolding step_down
  step_down-Next vs c l n e h =
      turn-Next search_down search_down l n _ stays (ap suc e, late)
        (order_loop-Stands search_down l n (plan_down c.candidate) as_is as_is (λ d u p. p)
          (λ d u p. p) vs c h)

  in_search_down-Next :
      (stable : Bool) (load : Option ℕ) (vs : List Visit) (c : Capacity) (l : List (Option ℕ))
      (n : ℕ)
      → length l ≡ n
      → Stands search_down l n c
      → IfOk (Next k search_down) (in_search_down tools k r stable load vs c)
  unfolding in_search_down
  in_search_down-Next stable load vs c l n e h =
      if-IfOk (Next k search_down) _ _ _
        (if-IfOk (Next k search_down) k.measures_dc _ _ (start_dc-Next vs _ l n e h)
          (finish-Next search_down start_monitoring _ (λ d. refl)))
        (step_down-Next vs _ l n e h)

  by_state-Next :
      (stable : Bool) (load : Option ℕ) (vs : List Visit) (c : Capacity) (l : List (Option ℕ))
      (n : ℕ) (f : Fsm)
      → length l ≡ n
      → Stands f l n c
      → IfOk (Next k f) (by_state tools k r stable load vs c f)
  unfolding by_state
  by_state-Next stable load vs c l n validate e h = in_validate-Next stable load c
  by_state-Next stable load vs c l n search e h = in_search-Next stable load vs c l n e h
  by_state-Next stable load vs c l n search_down e h = in_search_down-Next stable load vs c l n e h
  by_state-Next stable load vs c l n initial e h =
      finished-Next k initial (give_up c) (give_up-finished c)
  by_state-Next stable load vs c l n finished e h =
      finished-Next k finished (give_up c) (give_up-finished c)

-- A period was stored.
period-Next :
    (tools : Tools) (k : Config) (r : Reading) (vs : List Visit) (m : ℕ) (stable : Bool)
    (c : Capacity) (l : List (Option ℕ)) (x : Option ℕ)
    → 1 ≤ r.later
    → k.max_load ≡ some m
    → c.period_load ≡ l ++ x ∷ []
    → suc (length l) ≡ c.nof_steps
    → IfOk (Next k c.fsm) (by_state tools k r stable x vs c c.fsm)
period-Next tools k r vs m stable c l x late v e n =
    by_state-Next tools k r late m v stable x vs c (l ++ x ∷ []) c.nof_steps c.fsm
      (omega (arith, length-append l (x ∷ []), n)) (refl, e, refl)

-- Without validation the first period that is over has no load that the log could name.
pub measure_unvalidated :
    (tools : Tools) (k : Config) (r : Reading) (vs : List Visit) (c : Capacity)
    → k.max_load ≡ none
    → c.period_load ≡ []
    → measure tools k r vs c ≡ (err index_error, stop_monitoring c)
unfolding measure
measure_unvalidated tools k r vs c e h = simp (e, h, measure) refl

measure-by_state :
    (tools : Tools) (k : Config) (r : Reading) (vs : List Visit) (c : Capacity) (m : ℕ)
    (x : Option ℕ)
    → k.max_load ≡ some m
    → let (stable, d) = load_stable tools k (stop_monitoring c) in
      last? d.period_load ≡ some x → measure tools k r vs c ≡ by_state tools k r stable x vs d d.fsm
unfolding measure
measure-by_state tools k r vs c m x v e = simp (v, e, measure) refl

measure_validated :
    (tools : Tools) (k : Config) (r : Reading) (vs : List Visit) (c : Capacity) (m : ℕ)
    → 1 ≤ r.later
    → k.max_load ≡ some m
    → suc (length c.period_load) ≡ c.nof_steps
    → IfOk (Next k c.fsm) (measure tools k r vs c)
measure_validated tools k r vs c m late v n =
    let (stable, d) = load_stable tools k (stop_monitoring c) in
    let (f, steps, t, (x, l)) = load_stable-period tools k (stop_monitoring c) in
    subst (λ g. IfOk (Next k g) (measure tools k r vs c)) f
      (subst (IfOk (Next k d.fsm))
        (sym (measure-by_state tools k r vs c m x v (ap last? l ∙ last?-append c.period_load x)))
        (period-Next tools k r vs m stable d c.period_load x late v l (n ∙ sym steps)))

-- A search that has begun measures.
pub measure-Next :
    (tools : Tools) (k : Config) (r : Reading) (vs : List Visit) (c : Capacity) (o : Option ℕ)
    (f : Fsm)
    → 1 ≤ r.later
    → k.max_load ≡ o
    → c.fsm ≡ f
    → f ≢ finished
    → c.last_time ≢ 0
    → Counts o f c.period_load c.nof_steps c.last_time
    → IfOk (Next k f) (measure tools k r vs c)
measure-Next tools k r vs c o finished late v e nf t h = absurd (nf refl)
measure-Next tools k r vs c o initial late v e nf t h = absurd (t h.2)
measure-Next tools k r vs c none search late v e nf t h =
    subst (IfOk (Next k search)) (sym (measure_unvalidated tools k r vs c v h.0)) tt
measure-Next tools k r vs c none search_down late v e nf t h = absurd h
measure-Next tools k r vs c none validate late v e nf t h = absurd h
measure-Next tools k r vs c (some m) search late v e nf t h =
    subst (λ g. IfOk (Next k g) (measure tools k r vs c)) e
      (measure_validated tools k r vs c m late v h.0)
measure-Next tools k r vs c (some m) search_down late v e nf t h =
    subst (λ g. IfOk (Next k g) (measure tools k r vs c)) e
      (measure_validated tools k r vs c m late v h.0)
measure-Next tools k r vs c (some m) validate late v e nf t h =
    subst (λ g. IfOk (Next k g) (measure tools k r vs c)) e
      (measure_validated tools k r vs c m late v h.0)

-- The first refresh of all.
pub start_sound :
    (k : Config) (r : Reading) (v : Visit) (vs : List Visit) (c : Capacity) (o : Option ℕ) (f : Fsm)
    → 1 ≤ r.now
    → k.max_load ≡ o
    → c.fsm ≡ f
    → f ≢ finished
    → c.last_time ≡ 0
    → Counts o f c.period_load c.nof_steps c.last_time
    → IfOk (Next k f) (start r (v ∷ vs) c)
start_sound k r v vs c o initial now e g nf t h = start-Next k r v vs c now h.0 h.1
start_sound k r v vs c o finished now e g nf t h = absurd (nf refl)
start_sound k r v vs c none search now e g nf t h = ground (arith, h.1)
start_sound k r v vs c none search_down now e g nf t h = absurd h
start_sound k r v vs c none validate now e g nf t h = absurd h
start_sound k r v vs c (some m) search now e g nf t h = ground (arith, h.1)
start_sound k r v vs c (some m) search_down now e g nf t h = ground (arith, h.1)
start_sound k r v vs c (some m) validate now e g nf t h = ground (arith, h.1)
