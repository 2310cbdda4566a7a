-- ===== src/Capacity/States.antt =====
-- The states of the search, and what it counts.
use mathlib.Core.Path.{subst}
use st_tools.Prelude.{
  ◌≡◌, refl, sym, ◌∙◌, arith, Bool, true, false, Option, none, some, List, [], ◌∷◌, ℕ, suc, ◌≤◌,
  length, if◌then◌else◌, is_some,
}
use st_tools.Prelude.Exec.{Result, ok, err, Exec, continue, ◌>>◌}
use st_tools.Scheduler.{emit, enable_load_monitor}
use st_tools.Capacity.{
  Capacity, Config, Tools, TrafficSlot, Fsm, initial, search, search_down, validate, finished, Turn,
  goes_on, gave_up, raises, set_base,
}
use st_tools.Capacity.Table.{
  finish, reported, create_reference, build_cps_table, scheduling_info, run_traffic,
  reconfigure_load_monitor,
}
use st_tools.Capacity.Search.{turned}
use st_tools.Capacity.Orders.{Ordered}

-- The moves between the states.
pub data Moves : Fsm → Fsm → Type 0 where
  stays : {f : Fsm} → Moves f f
  begins : Moves initial search
  turns : Moves search search_down
  dimensions : Moves search_down validate
  ends : {f : Fsm} → Moves f finished

-- What holds of the load's periods, the steps and the last time in each state: a validated search
-- has one step more than periods, one that is not has no period at all.
abbrev pub Counts : Option ℕ → Fsm → List (Option ℕ) → ℕ → ℕ → Type 0
Counts m initial l n t = (l ≡ []) × (n ≡ 0) × (t ≡ 0)
Counts m finished l n t = Unit
Counts (some m) f l n t = (suc (length l) ≡ n) × (1 ≤ t)
Counts none search l n t = (l ≡ []) × (1 ≤ t)
Counts none f l n t = ⊥

abbrev pub IsSound : Config → Capacity → Type 0
IsSound k c = Counts k.max_load c.fsm c.period_load c.nof_steps c.last_time

-- What holds where no exception is raised.
abbrev pub IfOk : (Capacity → Type 0) → Result (Unit {0}) × Capacity → Type 0
IfOk P (ok u, c) = P c
IfOk P (err e, c) = Unit

abbrev pub Next : Config → Fsm → Capacity → Type 0
Next k f d = Moves f d.fsm × IsSound k d

module _ (P : Capacity → Type 0) where
  pub if-IfOk :
      (b : Bool) (x y : Result (Unit {0}) × Capacity)
      → IfOk P x
      → IfOk P y
      → IfOk P (if b then x else y)
  if-IfOk true x y h i = h
  if-IfOk false x y h i = i

  -- With what the test came to.
  pub test-IfOk :
      (b : Bool) (x y : Result (Unit {0}) × Capacity)
      → (b ≡ true → IfOk P x)
      → (b ≡ false → IfOk P y)
      → IfOk P (if b then x else y)
  test-IfOk true x y h i = h refl
  test-IfOk false x y h i = i refl

  pub continue-IfOk :
      (r : Result (Unit {0})) (f : Exec Capacity (Unit {0})) (c : Capacity)
      → IfOk P (f c)
      → IfOk P (continue r (λ u. f) c)
  continue-IfOk (ok u) f c h = h
  continue-IfOk (err e) f c h = tt

  pub turned-IfOk :
      {Q : Capacity → Type 0} (f : Capacity → Result (Unit {0}) × Capacity) (t : Turn × Capacity)
      → Ordered Q t
      → ((e : Capacity) → Q e → IfOk P (f e))
      → ((e : Capacity) → e.fsm ≡ finished → P e)
      → IfOk P (turned f t)
  turned-IfOk f (goes_on, c) h q g = q c h
  turned-IfOk f (gave_up, c) h q g = g c h
  turned-IfOk f (raises e, c) h q g = tt

  pub IfOk-map :
      {Q : Capacity → Type 0} (x : Result (Unit {0}) × Capacity)
      → ((e : Capacity) → Q e → P e)
      → IfOk Q x
      → IfOk P x
  IfOk-map (ok u, c) g h = g c h
  IfOk-map (err e, c) g h = tt

pub finished-Next : (k : Config) (f : Fsm) (d : Capacity) → d.fsm ≡ finished → Next k f d
finished-Next k f d e =
    subst (λ g. Moves f g × Counts k.max_load g d.period_load d.nof_steps d.last_time) (sym e)
      (ends, tt)

abbrev pub Ended : Capacity → Type 0
Ended d = d.fsm ≡ finished

reconfigure-fsm :
    (tools : Tools) (k : Config) (c : Capacity) → (reconfigure_load_monitor tools k c).1.fsm ≡ c.fsm
unfolding reconfigure_load_monitor
reconfigure-fsm tools k c = ground arith

continue_same :
    (r : Result (Unit {0})) (g : Capacity → Capacity) (c : Capacity)
    → (g c).fsm ≡ finished
    → IfOk Ended (continue r (λ u d. (ok tt, g d)) c)
continue_same (ok u) g c h = h
continue_same (err e) g c h = tt

module _ (tools : Tools) (k : Config) (monitors : Capacity → Capacity)
    (monitors-fsm : (d : Capacity) → (monitors d).fsm ≡ d.fsm) where
  run_traffic-Ended :
      (l : List TrafficSlot) (c : Capacity)
      → Ended c
      → IfOk Ended (run_traffic tools k monitors l c)
  unfolding run_traffic
  run_traffic-Ended [] c h = h
  run_traffic-Ended (slot ∷ l) c h =
      let d = (reconfigure_load_monitor tools k c).1 in
      if-IfOk Ended (is_some k.max_load) _ _
        (continue_same (reconfigure_load_monitor tools k c).0
          (λ e. monitors (set_base (emit enable_load_monitor) e)) d
          (monitors-fsm (set_base (emit enable_load_monitor) d) ∙ reconfigure-fsm tools k c ∙ h))
        (monitors-fsm c ∙ h)

  reported-Ended :
      {A : Type 0} (x : Result A) (c : Capacity)
      → Ended c
      → IfOk Ended (reported x (run_traffic tools k monitors k.traffic_slots) c)
  reported-Ended (ok lines) c h = run_traffic-Ended k.traffic_slots c h
  reported-Ended (err e) c h = tt

  pub finish-Ended : (c : Capacity) → IfOk Ended (finish tools k monitors c)
  unfolding finish
  finish-Ended c =
      let m = create_reference tools k k.traffic_ref >> build_cps_table tools k in
      continue-IfOk Ended (m c).0 _ (m c).1
        (let d = record (m c).1 { fsm = finished } in reported-Ended (scheduling_info k d) d refl)
