-- ===== src/Bat/Registers.antt =====
-- The registers of errors of a BAT: what is read after a write.
use st_tools.Prelude.{
  ◌≡◌, refl, inl, inr, Bool-cases, Bool, true, Option, List, [], ◌∷◌, ◌++◌, last?,
}
use st_tools.Prelude.Int.{ℤ, pos, ◌+ℤ◌}
use st_tools.Bat.{
  TrafficPhase, preexec, loadgen, postexec, Bat, Register, ErrorDb, of_phase, set_phase, write_last,
  is_registering, counters, error_db_registering, error_db_open_register, error_db_close_register,
  error_db_update_register, error_db_read_register_counters,
}

of_phase-set_phase :
    (p : TrafficPhase) (l : List Register) (d : ErrorDb) → of_phase p (set_phase p l d) ≡ l
of_phase-set_phase preexec l d = refl
of_phase-set_phase loadgen l d = refl
of_phase-set_phase postexec l d = refl

last-append : (l : List Register) (r : Register) → last? (l ++ r ∷ []) ≡ Option.some r
last-append [] r = refl
last-append (x ∷ []) r = refl
last-append (x ∷ y ∷ l) r = last-append (y ∷ l) r

is_registering-append :
    (l : List Register) (r : Register) → is_registering (l ++ r ∷ []) ≡ r.is_open
is_registering-append [] r = refl
is_registering-append (x ∷ []) r = refl
is_registering-append (x ∷ y ∷ l) r = is_registering-append (y ∷ l) r

-- A register that an update has written.
abbrev updated : ℤ → ℤ → Register → Register
updated e f r = record r { executed = r.executed +ℤ e; errors = r.errors +ℤ f }

counters-updated :
    (e f : ℤ) (l : List Register)
    → is_registering l ≡ true
    → (counters (last? (write_last (updated e f) l))
        ≡ ((counters (last? l)).0 +ℤ e, (counters (last? l)).1 +ℤ f))
      × (is_registering (write_last (updated e f) l) ≡ true)
counters-updated e f [] h = cc
counters-updated e f (r ∷ []) h = (refl, h)
counters-updated e f (r ∷ s ∷ []) h = (refl, h)
counters-updated e f (r ∷ s ∷ t ∷ l) h = counters-updated e f (s ∷ t ∷ l) h

counters-closed :
    (l : List Register)
    → counters (last? (write_last (λ r. record r { is_open = Bool.false }) l)) ≡ counters (last? l)
counters-closed [] = refl
counters-closed (r ∷ []) = refl
counters-closed (r ∷ s ∷ []) = refl
counters-closed (r ∷ s ∷ t ∷ l) = counters-closed (s ∷ t ∷ l)

pub read-update :
    (e f : ℤ) (b : Bat)
    → error_db_registering b ≡ true
    → (error_db_read_register_counters (error_db_update_register e f b)
        ≡ ((error_db_read_register_counters b).0 +ℤ e, (error_db_read_register_counters b).1 +ℤ f))
      × (error_db_registering (error_db_update_register e f b) ≡ true)
      × ((error_db_update_register e f b).traffic_phase ≡ b.traffic_phase)
unfolding error_db_update_register error_db_read_register_counters error_db_registering
read-update e f b h =
    let h' : is_registering (of_phase b.traffic_phase b.error_db) ≡ true = h in
    let (c, r) = counters-updated e f (of_phase b.traffic_phase b.error_db) h in
    simp (h', of_phase-set_phase) (c, r, refl)

pub read-close :
    (b : Bat)
    → (error_db_read_register_counters (error_db_close_register b)
        ≡ error_db_read_register_counters b)
      × ((error_db_close_register b).traffic_phase ≡ b.traffic_phase)
unfolding error_db_close_register error_db_read_register_counters error_db_registering
read-close b = elim (Bool-cases (is_registering (of_phase b.traffic_phase b.error_db))) [
  | inl e ↦
      simp (e, of_phase-set_phase) (counters-closed (of_phase b.traffic_phase b.error_db), refl)
  | inr e ↦ simp e (refl, refl)
]

pub read-open :
    (p : TrafficPhase) (b : Bat)
    → b.enable p ≡ true
    → b.traffic_phase ≡ p
    → (error_db_read_register_counters (error_db_open_register p b) ≡ (pos 0, pos 0))
      × (error_db_registering (error_db_open_register p b) ≡ true)
      × ((error_db_open_register p b).traffic_phase ≡ p)
unfolding error_db_open_register error_db_read_register_counters error_db_registering
read-open p b h k =
    simp (h, k, of_phase-set_phase, last-append, is_registering-append) (refl, refl, refl)
