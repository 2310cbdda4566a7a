-- ===== src/Capacity/Periods.antt =====
-- The first refresh of a search, and the period that each measure stores.
use st_tools.Prelude.{
  ◌≡◌, inl, inr, refl, ap, Option, none, some, List, [], ◌∷◌, ◌++◌, ℕ, suc, ◌≤◌, last?, leb,
  if◌then◌else◌, Bool-cases,
}
use st_tools.Prelude.Exec.{ok}
use st_tools.Scheduler.{Visit, BatData}
use st_tools.Capacity.{
  Plan, Capacity, Config, Tools, Reading, Fsm, initial, search, load_stable, order_loop, load_media,
  is_validate, purge_load_samples,
}
use st_tools.Capacity.Plans.{as_is, plan_initial}
use st_tools.Capacity.Search.{start}
use st_tools.Capacity.Orders.{Ordered, order_one-Ordered, order_loop-Ordered}
use st_tools.Capacity.States.{Moves, begins, Counts, IfOk, Next, turned-IfOk, finished-Next}

-- The state, the periods and the steps that the loops leave as they are.
abbrev pub Stands : Fsm → List (Option ℕ) → ℕ → Capacity → Type 0
Stands f l n c = (c.fsm ≡ f) × (c.period_load ≡ l) × (c.nof_steps ≡ n)

abbrev Begun : Capacity → Type 0
Begun c = (c.period_load ≡ []) × (c.nof_steps ≡ 1) × (1 ≤ c.last_time)

pub Stands-Next :
    (k : Config) (f g : Fsm) (d : Capacity) (m : Option ℕ) (l : List (Option ℕ)) (n : ℕ)
    → k.max_load ≡ m
    → Stands g l n d
    → Moves f g
    → Counts m g l n d.last_time
    → Next k f d
Stands-Next k f g d m l n v (a, b, e) mv h = rw (v, a, b, e) (mv, h)

begun-Counts : (m : Option ℕ) (t : ℕ) → 1 ≤ t → Counts m search [] 1 t
begun-Counts none t h = (refl, h)
begun-Counts (some m) t h = (refl, h)

pub start-Next :
    (k : Config) (r : Reading) (v : Visit) (vs : List Visit) (c : Capacity)
    → 1 ≤ r.now
    → c.period_load ≡ []
    → c.nof_steps ≡ 0
    → IfOk (Next k initial) (start r (v ∷ vs) c)
unfolding start order_loop
start-Next k r v vs c h e n =
    let Q : Capacity → Type 0 = λ d. Begun d × (d.fsm ≡ search) in
    turned-IfOk (Next k initial) {Q = Q} (λ d. (ok tt, d)) _
      (order_one-Ordered Begun Q plan_initial as_is (λ d u. record u { fsm = search }) (λ d s p. p)
        (λ d l p. p) (λ d u p. p) (λ d u p. (p, refl)) v
        (order_loop plan_initial as_is (λ d u. record u { fsm = search }) vs)
        (order_loop-Ordered Q plan_initial as_is (λ d u. record u { fsm = search }) (λ d s p. p)
          (λ d l p. p) (λ d u p. p) (λ d u p. (p.0, refl)) vs)
        (record c { last_time = r.now; nof_steps = suc c.nof_steps }) (e, ap suc n, h))
      (λ d q.
        Stands-Next k initial search d k.max_load [] 1 refl (q.1, q.0.0, q.0.1) begins
          (begun-Counts k.max_load d.last_time q.0.2))
      (λ d. finished-Next k initial d)

pub last?-append : (l : List (Option ℕ)) (x : Option ℕ) → last? (l ++ x ∷ []) ≡ some x
last?-append [] x = refl
last?-append (y ∷ []) x = refl
last?-append (y ∷ z ∷ l) x = last?-append (z ∷ l) x

-- Whether stable or not, a period is stored.
pub load_stable-period :
    (tools : Tools) (k : Config) (c : Capacity)
    → let d = (load_stable tools k c).1 in
      (d.fsm ≡ c.fsm)
      × (d.nof_steps ≡ c.nof_steps)
      × (d.last_time ≡ c.last_time)
      × ((x : Option ℕ) × (d.period_load ≡ c.period_load ++ x ∷ []))
unfolding load_stable
load_stable-period tools k c = elim (Bool-cases (leb 1 (load_media c.load_samples))) [
  | inl e ↦
      simp (e, load_stable)
        (
          refl,
          refl,
          refl,
          (
            some (
                load_media (
                  if is_validate c.fsm
                  then c.load_samples
                  else purge_load_samples c.rump_up (load_media c.load_samples) c.load_samples)),
            refl,
          ),
        )
  | inr e ↦ simp (e, load_stable) (refl, refl, refl, (none, refl))
]

-- A loop over the BAT instances leaves them, if what it stores beside does.
pub order_loop-Stands :
    (f : Fsm) (l : List (Option ℕ)) (n : ℕ) (plan : BatData → Plan)
    (before after : BatData → Capacity → Capacity)
    → ((d : BatData) (c : Capacity) → Stands f l n c → Stands f l n (before d c))
    → ((d : BatData) (c : Capacity) → Stands f l n c → Stands f l n (after d c))
    → (vs : List Visit) (c : Capacity) → Stands f l n c
    → Ordered (Stands f l n) (order_loop plan before after vs c)
order_loop-Stands f l n plan before after =
    order_loop-Ordered (Stands f l n) plan before after (λ c s h. h) (λ c m h. h)
