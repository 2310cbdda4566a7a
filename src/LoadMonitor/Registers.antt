-- ===== src/LoadMonitor/Registers.antt =====
-- `LoadMonitor`: what the registers of the load look like over time.
use st_tools.Prelude.{
  Bool-cases, inl, inr, ◌≡◌, arith, ◌&&◌, ℕ, suc, ◌-◌, Bool, true, false, Option, none, some, List,
  [], ◌∷◌, ◌++◌, last?, ltb, if◌then◌else◌,
}
use st_tools.Prelude.Int.{pos, ◌-ℤ◌, ltb_ℤ}
use st_tools.LoadMonitor.{
  State, new_slot, stable, not_stable, Register, Slot, SlotTime, until_end, kept, seconds, Monitor,
  is_stable, is_not_stable, register, report_load, check_load_stability, read_load, read_failed,
  turn, begin, new_monitor, update_slot, update_from, pass_time, set_new_slot, shutdown,
  uncheck_last, load_in_range, sample, enable, disable, reconfigure, transition,
}

abbrev pub Differs : State → State → Type 0
Differs stable stable = ⊥
Differs not_stable not_stable = ⊥
Differs s t = Unit

-- No two neighbours are both stable, or both not stable.
unfoldable pub IsAlternating : List Register → Type 0
IsAlternating [] = Unit
IsAlternating (r ∷ []) = Unit
IsAlternating (r ∷ s ∷ l) = Differs r.state s.state × IsAlternating (s ∷ l)

-- A register may follow what is there.
abbrev Follows : State → Option Register → Type 0
Follows s none = Unit
Follows s (some r) = Differs r.state s

append-IsAlternating :
    (l : List Register) (r : Register)
    → IsAlternating l
    → Follows r.state (last? l)
    → IsAlternating (l ++ r ∷ [])
unfolding IsAlternating
append-IsAlternating [] r h f = tt
append-IsAlternating (x ∷ []) r h f = (f, tt)
append-IsAlternating (x ∷ y ∷ l) r h f = (h.0, append-IsAlternating (y ∷ l) r h.1 f)

uncheck_last-IsAlternating : (l : List Register) → IsAlternating l → IsAlternating (uncheck_last l)
unfolding IsAlternating uncheck_last
uncheck_last-IsAlternating [] h = tt
uncheck_last-IsAlternating (r ∷ []) h = tt
uncheck_last-IsAlternating (r ∷ s ∷ []) h = h
uncheck_last-IsAlternating (r ∷ s ∷ t ∷ l) h = (h.0, uncheck_last-IsAlternating (s ∷ t ∷ l) h.1)

new_slot-Follows : (o : Option Register) → Follows new_slot o
new_slot-Follows none = tt
new_slot-Follows (some r) = differs_new r.state
  where
    differs_new : (s : State) → Differs s new_slot
    differs_new new_slot = tt
    differs_new stable = tt
    differs_new not_stable = tt

stable-Follows : (o : Option Register) → is_stable o ≡ false → Follows stable o
stable-Follows none e = tt
stable-Follows (some r) e = from r.state e
  where
    from :
        (s : State)
        → is_stable (some (record { state = s; check = true })) ≡ false
        → Differs s stable
    from new_slot e = tt
    from stable e = ground arith
    from not_stable e = tt

not_stable-Follows : (o : Option Register) → is_not_stable o ≡ false → Follows not_stable o
not_stable-Follows none e = tt
not_stable-Follows (some r) e = from r.state e
  where
    from :
        (s : State)
        → is_not_stable (some (record { state = s; check = true })) ≡ false
        → Differs s not_stable
    from new_slot e = tt
    from stable e = tt
    from not_stable e = ground arith

-- The invariant of a monitor.
unfoldable pub IsValid : Monitor → Type 0
unfolding IsAlternating
IsValid m = IsAlternating m.load_db

choose-IsValid : (b : Bool) (m n : Monitor) → IsValid m → IsValid n → IsValid (if b then m else n)
choose-IsValid true m n h k = h
choose-IsValid false m n h k = k

register-IsValid :
    (s : State) (m : Monitor) → IsValid m → Follows s (last? m.load_db) → IsValid (register s m)
unfolding IsValid
register-IsValid s m h f = append-IsAlternating m.load_db _ h f

report_load-IsValid : (b : Bool) (now : ℕ) (m : Monitor) → IsValid m → IsValid (report_load b now m)
unfolding IsValid
report_load-IsValid true now m h = elim (Bool-cases (is_stable (last? m.load_db))) [
  | inl e ↦ rw (e) h
  | inr e ↦ rw (e) (register-IsValid stable m h (stable-Follows (last? m.load_db) e))
]
report_load-IsValid false now m h = elim (Bool-cases (is_not_stable (last? m.load_db))) [
  | inl e ↦ rw (e) h
  | inr e ↦ rw (e) (append-IsAlternating m.load_db _ h (not_stable-Follows (last? m.load_db) e))
]

shutdown-IsValid : (now : ℕ) (m : Monitor) → IsValid m → IsValid (shutdown now m)
unfolding IsValid shutdown
shutdown-IsValid now m h =
    elim (Bool-cases (m.running && ltb (now - m.last_not_stable_time) (transition m))) [
      | inl e ↦ rw (e) (uncheck_last-IsAlternating m.load_db h)
      | inr e ↦ rw (e) h
    ]

set_new_slot-IsValid :
    (now : ℕ) (l : List Slot) (m : Monitor) → IsValid m → IsValid (set_new_slot now l m)
unfolding IsValid set_new_slot
set_new_slot-IsValid now [] m h = shutdown-IsValid now m h
set_new_slot-IsValid now (s ∷ l) m h =
    append-IsAlternating m.load_db _ h (new_slot-Follows (last? m.load_db))

pass_time-IsValid : (now : ℕ) (s : Slot) (m : Monitor) → IsValid m → IsValid (pass_time now s m)
unfolding IsValid
pass_time-IsValid now s m h =
    choose-IsValid (ltb_ℤ (s.pending_time -ℤ pos (now - s.last_check)) (pos 0)) _ _
      (set_new_slot-IsValid now m.slots _ h) h

update_from-IsValid :
    (now : ℕ) (s : Slot) (t : SlotTime) (m : Monitor) → IsValid m → IsValid (update_from now s t m)
unfolding IsValid
update_from-IsValid now s until_end m h = h
update_from-IsValid now s kept m h = h
update_from-IsValid now s (seconds n) m h = pass_time-IsValid now s m h

update_slot-IsValid : (now : ℕ) (m : Monitor) → IsValid m → IsValid (update_slot now m)
unfolding update_slot
update_slot-IsValid now m h =
    elim m.slot
      as (λ o.
        IsValid
          (elim o [ none ↦ set_new_slot now m.slots m | some s ↦ update_from now s s.time m ])) [
            | none ↦ set_new_slot-IsValid now m.slots m h
            | some s ↦ update_from-IsValid now s s.time m h
          ]

check_load_stability-IsValid :
    (steady : List ℕ → ℕ → Bool) (now : ℕ) (s : Slot) (m : Monitor)
    → IsValid m
    → IsValid (check_load_stability steady now s m)
unfolding check_load_stability IsValid
check_load_stability-IsValid steady now s m h =
    choose-IsValid m.target_load_reached _ _ (report_load-IsValid _ now (sample m) h)
      (choose-IsValid (load_in_range m) _ _ h h)

read_failed-IsValid : (now : ℕ) (m : Monitor) → IsValid m → IsValid (read_failed now m)
unfolding read_failed IsValid
read_failed-IsValid now m h =
    choose-IsValid (ltb 3 (suc m.reading_error)) _ _
      (shutdown-IsValid now (record m { reading_error = suc m.reading_error }) h) h

read_load-IsValid :
    (steady : List ℕ → ℕ → Bool) (now load : ℕ) (m : Monitor)
    → IsValid m
    → IsValid (read_load steady now load m)
unfolding read_load IsValid
read_load-IsValid steady now load m h = checked (update_slot now n) (update_slot-IsValid now n h)
  where
    n : Monitor
    n = record m { current_load = load }

    checked :
        (m : Monitor)
        → IsValid m
        → IsValid (elim m.slot [
          | none ↦ read_failed now (if m.target_load_reached then sample m else m)
          | some s ↦ check_load_stability steady now s m
        ])
    checked m h =
        elim m.slot
          as (λ o. IsValid (elim o [
            | none ↦ read_failed now (if m.target_load_reached then sample m else m)
            | some s ↦ check_load_stability steady now s m
          ])) [
            | none ↦ read_failed-IsValid now _ (choose-IsValid m.target_load_reached _ _ h h)
            | some s ↦ check_load_stability-IsValid steady now s m h
          ]

turn-IsValid :
    (steady : List ℕ → ℕ → Bool) (now : ℕ) (answer : Option ℕ) (m : Monitor)
    → IsValid m
    → IsValid (turn steady now answer m)
unfolding turn
turn-IsValid steady now none m h = choose-IsValid m.running _ _ (read_failed-IsValid now m h) h
turn-IsValid steady now (some load) m h =
    choose-IsValid m.running _ _ (read_load-IsValid steady now load m h) h

-- What happens to a monitor: a turn of its loop, at a time, or a call of the phase.
pub data Event : Type 0 where
  turned : ℕ → Option ℕ → Event
  slots_given : List Slot → Event
  enabled disabled : Event
  stopped : ℕ → Event

abbrev pub after : (List ℕ → ℕ → Bool) → Event → Monitor → Monitor
after steady (turned now answer) m = turn steady now answer m
after steady (slots_given l) m = reconfigure l m
after steady enabled m = enable m
after steady disabled m = disable m
after steady (stopped now) m = shutdown now m

abbrev pub after_all : (List ℕ → ℕ → Bool) → List Event → Monitor → Monitor
after_all steady [] m = m
after_all steady (e ∷ l) m = after_all steady l (after steady e m)

after-IsValid :
    (steady : List ℕ → ℕ → Bool) (e : Event) (m : Monitor) → IsValid m → IsValid (after steady e m)
unfolding IsValid reconfigure enable disable
after-IsValid steady (turned now answer) m h = turn-IsValid steady now answer m h
after-IsValid steady (slots_given l) m h = h
after-IsValid steady enabled m h = h
after-IsValid steady disabled m h = h
after-IsValid steady (stopped now) m h = shutdown-IsValid now m h

after_all-IsValid :
    (steady : List ℕ → ℕ → Bool) (l : List Event) (m : Monitor)
    → IsValid m
    → IsValid (after_all steady l m)
after_all-IsValid steady [] m h = h
after_all-IsValid steady (e ∷ l) m h =
    after_all-IsValid steady l (after steady e m) (after-IsValid steady e m h)

-- A monitor that runs with some slots, whatever the loadplotter answers and whatever the phase calls
-- between the turns: of two registers that follow each other, not both are stable and not both are
-- not stable.
pub registers_alternate :
    (steady : List ℕ → ℕ → Bool) (now : ℕ) (slots : List Slot) (l : List Event)
    → IsAlternating (after_all steady l (begin now (new_monitor slots))).load_db
unfolding IsValid begin new_monitor IsAlternating
registers_alternate steady now slots l =
    after_all-IsValid steady l _
      (update_slot-IsValid now (record (new_monitor slots) { running = true }) tt)
