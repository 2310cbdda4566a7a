-- ===== src/Capacity/Table.antt =====
-- What the search leaves when it is over: the references, the slots of the traffic and the report.
use st_tools.Prelude.{
  ℕ, zero, suc, String, Bool, Option, none, some, List, [], ◌∷◌, ◌++◌, last?, get_elem?,
  if◌then◌else◌,
}
use st_tools.Prelude.Int.{ℤ, pos, negsuc}
use st_tools.Prelude.Dict.{Dict}
use st_tools.Prelude.Exec.{
  Result, ok, err, run_error, index_error, type_error, Exec, pure, raise, ◌>>◌, modify,
}
use st_tools.Scheduler.{
  BatData, Slot, Loadgen, table, update_reference, reconfigure_load, enable_load_monitor,
  request_stop_phase, emit,
}
use st_tools.Capacity.{
  Capacity, Config, Tools, TrafficSlot, Reference, set_base, finished, load_validation_enabled,
}

-- The factor of each slot, applied.
unfoldable pub apply_slots : (String → ℤ → Option ℤ) → ℤ → List TrafficSlot → Option (List ℤ)
apply_slots f x [] = some []
apply_slots f x (slot ∷ l) = elim (f slot.factor x) [
  | none ↦ none
  | some y ↦ elim (apply_slots f x l) [ none ↦ none | some ys ↦ some (y ∷ ys) ]
]

-- The slots that a reference gives each BAT instance.
unfoldable pub reference_instances :
    Tools → List TrafficSlot → Dict BatData → Result (List (String × List ℤ))
unfolding apply_slots
reference_instances tools slots [] = ok []
reference_instances tools slots ((bat, d) ∷ l) = elim (last? d.used_target) [
  | none ↦ err index_error
  | some x ↦ elim (apply_slots tools.cps_of x slots) [
    | none ↦ err run_error
    | some ys ↦ elim (reference_instances tools slots l) [
      | ok r ↦ ok ((bat, ys) ∷ r)
      | err e ↦ err e
    ]
  ]
]

-- Its slots of the load, and its value.
unfoldable pub reference_load : Tools → Config → Reference → Option ℤ → Result (List ℤ × ℤ)
unfolding apply_slots
reference_load tools k ref load =
    if load_validation_enabled k
    then elim load [
      | none ↦ err type_error
      | some x ↦ elim (apply_slots tools.load_of x ref.slots) [
        | none ↦ err run_error
        | some ys ↦ elim (tools.load_of ref.target_load_factor x) [
          | none ↦ err type_error
          | some y ↦ ok (ys, y)
        ]
      ]
    ]
    else ok ([], negsuc 0)

unfoldable pub create_reference : Tools → Config → List Reference → Exec Capacity (Unit {0})
unfolding reference_instances reference_load
create_reference tools k [] c = (ok tt, c)
create_reference tools k (ref ∷ l) c = elim (reference_instances tools ref.slots c.base.data_of) [
  | err e ↦ (err e, c)
  | ok instances ↦ elim (reference_load tools k ref c.load) [
    | err e ↦ (err e, c)
    | ok (loads, value) ↦
        create_reference tools k l
          (set_base (emit (update_reference ref.id instances loads value)) c)
  ]
]

-- A slot of the table, and the instance's phase begins anew.
abbrev pub as_table : Option Loadgen → List Slot
as_table (some (table l)) = l
as_table g = []

abbrev pub append_slot : Slot → BatData → BatData
append_slot slot d = record d {
  loadgen_slots = some (table (as_table d.loadgen_slots ++ slot ∷ []));
  last_time = 0;
  target = pos 0;
}

unfoldable pub build_slots : Tools → ℤ → List TrafficSlot → Exec BatData (Unit {0})
build_slots tools x [] = pure tt
build_slots tools x (slot ∷ l) = elim (tools.cps_of slot.factor x) [
  | none ↦ raise run_error
  | some y ↦ modify (append_slot (record { time = slot.time; value = y })) >> build_slots tools x l
]

-- The table of one BAT instance; it stays empty after one step or none.
unfoldable pub build_table : Tools → List TrafficSlot → Exec BatData (Unit {0})
unfolding build_slots
build_table tools slots d =
    let fresh = record d { loadgen_slots = some (table []) } in
    elim d.used_target [
      | [] ↦ (ok tt, fresh)
      | x ∷ l ↦ elim (last? l) [ none ↦ (ok tt, fresh) | some y ↦ build_slots tools y slots fresh ]
    ]

unfoldable pub build_tables : Tools → List TrafficSlot → Exec (Dict BatData) (Unit {0})
unfolding build_table
build_tables tools slots [] = (ok tt, [])
build_tables tools slots ((bat, d) ∷ l) =
    let (r, d') = build_table tools slots d in
    let (r', l') = build_tables tools slots l in
    elim r [ err e ↦ (err e, (bat, d') ∷ l) | ok u ↦ (r', (bat, d') ∷ l') ]

unfoldable pub build_cps_table : Tools → Config → Exec Capacity (Unit {0})
unfolding build_tables
build_cps_table tools k c =
    let (r, all) = build_tables tools k.traffic_slots c.base.data_of in
    (r, set_base (λ s. record s { data_of = all }) c)

unfoldable pub reconfigure_load_monitor : Tools → Config → Exec Capacity (Unit {0})
unfolding apply_slots
reconfigure_load_monitor tools k c = elim c.load [
  | none ↦ (ok tt, c)
  | some x ↦
      if k.update_load_monitor
      then elim (apply_slots tools.load_of x k.traffic_slots) [
        | none ↦ (err run_error, c)
        | some ys ↦ (ok tt, set_base (emit (reconfigure_load ys)) c)
      ]
      else (ok tt, c)
]

-- The cps of each BAT instance in a step.
unfoldable pub step_cps : ℕ → Dict BatData → Option (List (String × ℤ))
step_cps n [] = some []
step_cps n ((bat, d) ∷ l) = elim (get_elem? d.used_target n) [
  | none ↦ none
  | some x ↦ elim (step_cps n l) [ none ↦ none | some xs ↦ some ((bat, x) ∷ xs) ]
]

-- The lines of the report: `steps` of them, from the one that is `count`.
unfoldable pub info_lines : Bool → ℕ → ℕ → Capacity → Result (List (Option ℕ × List (String × ℤ)))
unfolding step_cps
info_lines validated zero count c = ok []
info_lines validated (suc steps) count c =
    elim (if validated then get_elem? c.period_load count else some none) [
      | none ↦ err index_error
      | some load ↦ elim (step_cps count c.base.data_of) [
        | none ↦ err index_error
        | some xs ↦ elim (info_lines validated steps (suc count) c) [
          | err e ↦ err e
          | ok lines ↦ ok ((load, xs) ∷ lines)
        ]
      ]
    ]

unfoldable pub scheduling_info : Config → Capacity → Result (List (Option ℕ × List (String × ℤ)))
unfolding info_lines
scheduling_info k c = info_lines (load_validation_enabled k) c.nof_steps 0 c

-- The traffic after the search: none, or the monitors go on.
unfoldable pub run_traffic :
    Tools → Config → (Capacity → Capacity) → List TrafficSlot → Exec Capacity (Unit {0})
unfolding reconfigure_load_monitor
run_traffic tools k monitors [] c = (ok tt, set_base (emit request_stop_phase) c)
run_traffic tools k monitors (slot ∷ l) c =
    if load_validation_enabled k
    then (reconfigure_load_monitor tools k
          >> modify (λ d. monitors (set_base (emit enable_load_monitor) d)))
        c
    else (ok tt, monitors c)

-- What follows the report.
abbrev pub reported {ℓ} :
    {A : Type ℓ} → Result A → Exec Capacity (Unit {0}) → Exec Capacity (Unit {0})
reported (err e) f c = (err e, c)
reported (ok lines) f c = f c

-- The end of a search that has found the capacity.
unfoldable pub finish : Tools → Config → (Capacity → Capacity) → Exec Capacity (Unit {0})
unfolding create_reference build_cps_table scheduling_info run_traffic
finish tools k monitors = create_reference tools k k.traffic_ref >> build_cps_table tools k >> (λ c.
    let c' = record c { fsm = finished } in
    reported (scheduling_info k c') (run_traffic tools k monitors k.traffic_slots) c')
