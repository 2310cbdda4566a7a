-- ===== src/Capacity/Plans.antt =====
-- The next value of a BAT instance in each state of the search.
use st_tools.Prelude.{
  ℕ, ◌*◌, Bool, ◌&&◌, Option, none, some, List, ◌∷◌, length, last?, get_elem?, ltb, is_some,
  if◌then◌else◌,
}
use st_tools.Prelude.Int.{ℤ, pos, ◌+ℤ◌, ◌-ℤ◌, ltb_ℤ, magnitude, four_fifths}
use st_tools.Prelude.Exec.{index_error, type_error}
use st_tools.Scheduler.{BatData, Deltas, table, deltas}
use st_tools.Capacity.{Capacity, Plan, order, no_order, fails}

-- A value that is reckoned from the deltas; the keys of the search are gone once there is a table.
abbrev pub of_deltas : (Deltas → Plan) → BatData → Plan
of_deltas f d = elim d.loadgen_slots [
  | none ↦ no_order
  | some g ↦ elim g [ table l ↦ fails type_error | deltas q ↦ f q ]
]

unfoldable pub plan_initial : BatData → Plan
plan_initial = of_deltas (λ q. order q.initial)

-- `used_target[-1] - delta_down`, and what is done with it.
abbrev pub lowered : (ℤ → Plan) → BatData → Plan
lowered f d = elim (last? d.used_target) [
  | none ↦ fails index_error
  | some x ↦ of_deltas (λ q. f (x -ℤ q.delta_down)) d
]

-- The last but one step.
abbrev pub candidate_of : List ℤ → Option ℕ
candidate_of (x ∷ y ∷ l) = some (length l)
candidate_of l = none

-- The limit is reached.
unfoldable pub plan_turn : BatData → Plan
plan_turn d = if is_some (candidate_of d.used_target) then lowered order d else no_order

-- The traffic is far from its target: 100 cps are 500 fifths.
abbrev pub could_be_paused : BatData → Bool
could_be_paused d =
    ltb 500 (magnitude d.target)
    && ltb_ℤ d.target (pos (4 * magnitude (d.target -ℤ d.last_current)))

unfoldable pub plan_up : BatData → Plan
plan_up d =
    if could_be_paused d then no_order else of_deltas (λ q. order (d.target +ℤ q.delta_up)) d

-- `used_target[candidate]`
abbrev pub used_at : Option ℕ → List ℤ → Option ℤ
used_at none l = last? l
used_at (some n) l = get_elem? l n

-- Not below the latest good value of the way up.
abbrev pub down_to : Option ℤ → ℤ → Plan
down_to none x = fails index_error
down_to (some good) x = if ltb_ℤ x good then no_order else order x

unfoldable pub plan_down : Option ℕ → BatData → Plan
plan_down candidate d = lowered (down_to (used_at candidate d.used_target)) d

unfoldable pub plan_dc : BatData → Plan
plan_dc d = elim (last? d.used_target) [ none ↦ fails index_error | some x ↦ order (four_fifths x) ]

abbrev pub as_is : BatData → Capacity → Capacity
as_is d c = c
