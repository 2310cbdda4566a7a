-- ===== src/Scheduler/Slots.antt =====
-- What a visit of a BAT instance does to the slots of the instances.
use mathlib.Core.Path.{subst}
use st_tools.Prelude.{
  ℕ, suc, ◌-◌, ◌≡◌, ◌≢◌, ◌⊎◌, refl, sym, ap, ◌∙◌, String, Bool, true, false, some, List, [], ◌∷◌,
  ◌++◌, arith, inl, inr, All, Option-cases, Bool-cases, eq_iff, eq_refl, eqb, if◌then◌else◌, ◌==◌,
}
use st_tools.Prelude.Int.{ℤ}
use st_tools.Prelude.Dict.{lookup, lookup-modify}
use st_tools.Scheduler.{
  Phase, preexec, loadgen, postexec, Slot, BatData, Event, set_value, request_stop_phase, Scheduler,
  Visit, not_running, refuses, accepts, emit, set_target_cps, slots, set_slots, Outcome, pending,
  done, missing, change, with_target, set_slot, next_slot, visit_slots, is_over, visit,
}

-- No slot of the phase is left for the BAT instance.
abbrev pub IsOut : Scheduler → Visit → Type 0
IsOut s v = (d : BatData) × (lookup v.bat s.data_of ≡ some d) × (slots s.phase d ≡ some [])

-- How often the executor was told to stop the phase.
unfoldable pub stops : List Event → ℕ
stops [] = 0
stops (request_stop_phase ∷ l) = suc (stops l)
stops (e ∷ l) = stops l

slots-set_slots : (p : Phase) (l : List Slot) (d : BatData) → slots p (set_slots p l d) ≡ some l
unfolding slots set_slots
slots-set_slots preexec l d = refl
slots-set_slots loadgen l d = refl
slots-set_slots postexec l d = refl

slots-with_target :
    (p : Phase) (t : ℕ) (v : ℤ) (d : BatData) → slots p (with_target t v d) ≡ slots p d
unfolding slots
slots-with_target preexec t v d = refl
slots-with_target loadgen t v d = refl
slots-with_target postexec t v d = refl

stops-set_value : (l : List Event) (b : String) (v : ℤ) → stops (l ++ set_value b v ∷ []) ≡ stops l
unfolding stops
stops-set_value [] b v = refl
stops-set_value (request_stop_phase ∷ l) b v = ap suc (stops-set_value l b v)
stops-set_value (e ∷ l) b v = stops-set_value l b v

-- A visit says nothing of a stop, and stays in the phase.
abbrev Quiet : Scheduler → Scheduler → Type 0
Quiet s t = (stops t.sent ≡ stops s.sent) × (t.phase ≡ s.phase)

set_slot-Quiet : (v : Visit) (x : Slot) (s : Scheduler) → Quiet s (set_slot v x s).1
unfolding set_target_cps
set_slot-Quiet v x s = ground (arith, stops-set_value s.sent v.bat x.value)

visit_slots-Quiet :
    (v : Visit) (p : Phase) (n : ℕ) (l : List Slot) (s : Scheduler)
    → Quiet s (visit_slots v p n l s).1
visit_slots-Quiet v p n [] s = (refl, refl)
visit_slots-Quiet v p n (x ∷ []) s = ground (arith, set_slot-Quiet v x s)
visit_slots-Quiet v p n (x ∷ y ∷ l) s =
    ground (arith, set_slot-Quiet v x s, set_slot-Quiet v y (change v.bat (set_slots p (y ∷ l)) s))

pub visit-Quiet : (v : Visit) (s : Scheduler) → Quiet s (visit v s).1
unfolding visit
visit-Quiet v s = elim (Option-cases (lookup v.bat s.data_of)) [
  | inl e ↦ simp (e, visit) (refl, refl)
  | inr (d, e) ↦ elim (Option-cases (slots s.phase d)) [
    | inl f ↦ simp (e, f, visit) (refl, refl)
    | inr (l, f) ↦ simp (e, f, visit) (visit_slots-Quiet v s.phase d.last_time l s)
  ]
]

visit_of_out :
    (v : Visit) (d : BatData) (s : Scheduler)
    → lookup v.bat s.data_of ≡ some d
    → slots s.phase d ≡ some []
    → visit v s ≡ (done, s)
unfolding visit
visit_of_out v d s e f = simp (e, f, visit) refl

-- What another BAT instance has left does not change.
module _ (v w : Visit) (other : v.bat == w.bat ≡ false) where
  change-IsOut : (f : BatData → BatData) (s : Scheduler) → IsOut s w → IsOut (change v.bat f s) w
  change-IsOut f s (d, e, h) = (d, ground (arith, lookup-modify v.bat w.bat f s.data_of), h)

  set_slot-IsOut : (x : Slot) (s : Scheduler) → IsOut s w → IsOut (set_slot v x s).1 w
  unfolding set_target_cps
  set_slot-IsOut x s h = elim v.reply as (λ r. IsOut (set_slot (record v { reply = r }) x s).1 w) [
    | not_running ↦ h
    | refuses ↦ h
    | accepts ↦ change-IsOut (with_target v.later x.value) (emit (set_value v.bat x.value) s) h
  ]

  next_slot-IsOut :
      (p : Phase) (l : List Slot) (s : Scheduler) → IsOut s w → IsOut (next_slot v p l s).1 w
  next_slot-IsOut p [] s h = change-IsOut (set_slots p []) s h
  next_slot-IsOut p (x ∷ l) s h =
      set_slot-IsOut x (change v.bat (set_slots p (x ∷ l)) s)
        (change-IsOut (set_slots p (x ∷ l)) s h)

  visit_slots-IsOut :
      (p : Phase) (n : ℕ) (l : List Slot) (s : Scheduler)
      → IsOut s w
      → IsOut (visit_slots v p n l s).1 w
  visit_slots-IsOut p n [] s h = h
  visit_slots-IsOut p n (x ∷ l) s h = elim (Bool-cases (eqb n 0)) [
    | inl e ↦ simp e (set_slot-IsOut x s h)
    | inr e ↦ elim (Bool-cases (is_over x.time (v.now - n))) [
      | inl f ↦ simp (e, f) (next_slot-IsOut p l s h)
      | inr f ↦ simp (e, f) h
    ]
  ]

visit-IsOut : (v w : Visit) (s : Scheduler) → IsOut s w → IsOut (visit v s).1 w
unfolding visit
visit-IsOut v w s h = elim (Bool-cases (v.bat == w.bat)) [
  | inl same ↦
      let at : lookup v.bat s.data_of ≡ some h.0 = ground (arith, h.1, eq_iff v.bat w.bat) in
      rw (visit_of_out v h.0 s at h.2) h
  | inr other ↦ elim (Option-cases (lookup v.bat s.data_of)) [
    | inl e ↦ simp (e, visit) h
    | inr (d, e) ↦ elim (Option-cases (slots s.phase d)) [
      | inl f ↦ simp (e, f, visit) h
      | inr (l, f) ↦ simp (e, f, visit) (visit_slots-IsOut v w other s.phase d.last_time l s h)
    ]
  ]
]

pub All-IsOut :
    (v : Visit) (ws : List Visit) (s : Scheduler) → All (IsOut s) ws → All (IsOut (visit v s).1) ws
All-IsOut v [] s h = tt
All-IsOut v (w ∷ ws) s h = (visit-IsOut v w s h.0, All-IsOut v ws s h.1)

set_slot-goes_on : (v : Visit) (x : Slot) (s : Scheduler) → (set_slot v x s).0 ≢ done
unfolding set_target_cps
set_slot-goes_on v x s = ground arith

next_slot-done :
    (v : Visit) (d : BatData) (l : List Slot) (s : Scheduler)
    → lookup v.bat s.data_of ≡ some d
    → (next_slot v s.phase l s).0 ≡ done
    → IsOut (next_slot v s.phase l s).1 v
next_slot-done v d [] s e h = (
  set_slots s.phase [] d,
  ground (arith, lookup-modify v.bat v.bat (set_slots s.phase []) s.data_of, eq_refl v.bat),
  slots-set_slots s.phase [] d,
)
next_slot-done v d (y ∷ l) s e h =
    absurd (set_slot-goes_on v y (change v.bat (set_slots s.phase (y ∷ l)) s) h)

first_slot-done :
    (b c : Bool) (v : Visit) (d : BatData) (x : Slot) (l : List Slot) (s : Scheduler)
    → lookup v.bat s.data_of ≡ some d
    → let r = if b then set_slot v x s else if c then next_slot v s.phase l s else (pending, s) in
      r.0 ≡ done → IsOut r.1 v
first_slot-done true c v d x l s e h = absurd (set_slot-goes_on v x s h)
first_slot-done false true v d x l s e h = next_slot-done v d l s e h
first_slot-done false false v d x l s e h = cc

visit_slots-done :
    (v : Visit) (d : BatData) (l : List Slot) (s : Scheduler)
    → lookup v.bat s.data_of ≡ some d
    → slots s.phase d ≡ some l
    → (visit_slots v s.phase d.last_time l s).0 ≡ done
    → IsOut (visit_slots v s.phase d.last_time l s).1 v
visit_slots-done v d [] s e f h = (d, e, f)
visit_slots-done v d (x ∷ l) s e f h =
    first_slot-done (eqb d.last_time 0) (is_over x.time (v.now - d.last_time)) v d x l s e h

visit-cases :
    (v : Visit) (s : Scheduler)
    → (visit v s ≡ (missing, s))
      ⊎ ((d : BatData) × (l : List Slot) × (lookup v.bat s.data_of ≡ some d)
          × (slots s.phase d ≡ some l)
          × (visit v s ≡ visit_slots v s.phase d.last_time l s))
unfolding visit
visit-cases v s = elim (Option-cases (lookup v.bat s.data_of)) [
  | inl e ↦ inl (simp (e, visit) refl)
  | inr (d, e) ↦ elim (Option-cases (slots s.phase d)) [
    | inl f ↦ inl (simp (e, f, visit) refl)
    | inr (l, f) ↦ inr (d, l, e, f, simp (e, f, visit) refl)
  ]
]

pub visit-done : (v : Visit) (s : Scheduler) → (visit v s).0 ≡ done → IsOut (visit v s).1 v
visit-done v s h = elim (visit-cases v s) [
  | inl e ↦ cc (ap (λ (t : Outcome × Scheduler). t.0) e, h)
  | inr (d, l, at, here, e) ↦
      subst (λ (t : Outcome × Scheduler). IsOut t.1 v) (sym e)
        (visit_slots-done v d l s at here (sym (ap (λ (t : Outcome × Scheduler). t.0) e) ∙ h))
]
