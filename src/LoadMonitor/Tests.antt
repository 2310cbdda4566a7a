-- ===== src/LoadMonitor/Tests.antt =====
-- `LoadMonitor`: runs on small inputs.
use st_tools.Prelude.{ℕ, ◌≡◌, refl, Bool, none, some, List, [], ◌∷◌, length, leb}
use st_tools.Prelude.Int.{pos}
use st_tools.LoadMonitor.{
  Slot, until_end, stable, not_stable, new_slot, begin, new_monitor, State, Register, turn, disable,
}
use st_tools.LoadMonitor.Registers.{
  Event, turned, stopped, disabled, IsAlternating, after_all, registers_alternate,
}

abbrev one_slot : List Slot
one_slot =
    record {
      time = until_end;
      target_load = 80;
      variance = 30;
      transition = none;
      pending_time = pos 0;
      last_check = 0;
    }
    ∷ []

abbrev steady : List ℕ → ℕ → Bool
steady l n = leb (length l) 15

-- The load reaches 80, stays, and falls.
abbrev busy_day : List Event
busy_day =
    turned 103 (some 40)
    ∷ turned 106 (some 78)
    ∷ turned 109 (some 80)
    ∷ turned 112 (some 81)
    ∷ turned 115 none
    ∷ disabled
    ∷ turned 118 (some 0)
    ∷ turned 121 (some 0)
    ∷ turned 124 (some 0)
    ∷ stopped 126
    ∷ []

abbrev states : List Register → List State
states [] = []
states (r ∷ l) = r.state ∷ states l

registers_of_busy_day :
    states (after_all steady busy_day (begin 100 (new_monitor one_slot))).load_db
    ≡ new_slot ∷ stable ∷ not_stable ∷ []
unfolding begin new_monitor turn disable
registers_of_busy_day = refl

registers_alternate_example :
    IsAlternating (after_all steady busy_day (begin 100 (new_monitor one_slot))).load_db
registers_alternate_example = registers_alternate steady 100 one_slot busy_day
