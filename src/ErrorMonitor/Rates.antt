-- ===== src/ErrorMonitor/Rates.antt =====
-- The rate of errors that a stop of the monitoring gives.
use st_tools.Prelude.{
  ◌≡◌, refl, ap, sym, ◌∙◌, arith, ℕ, zero, suc, Bool, true, false, Option, some, List, [], ◌∷◌,
  ◌++◌, map, All, length, ◌<◌, if◌then◌else◌, last?,
}
use st_tools.Prelude.Int.{ℤ, pos, ◌+ℤ◌, above, below, int_laws}
use st_tools.Bat.{
  TrafficPhase, Bat, error_db_open_register, error_db_close_register, error_db_update_register,
  error_db_registering,
}
use st_tools.Bat.Registers.{read-open, read-update, read-close}
use st_tools.ErrorMonitor.{
  Monitor, Register, Rate, rate_of, start_monitoring, stop_monitoring, close_register, close_with,
  write_last, all_executed, all_errors, last_error_rate, rate_at,
}

-- What the instance `number` counts: its executed cases and its errors.
pub record Count : Type 0 where
  pub number : ℕ
  pub executed : ℤ
  pub errors : ℤ

abbrev pub count_in : ℕ → ℤ → ℤ → List Bat → List Bat
count_in n e f [] = []
count_in zero e f (b ∷ l) = error_db_update_register e f b ∷ l
count_in (suc n) e f (b ∷ l) = b ∷ count_in n e f l

abbrev pub count_all : List Count → List Bat → List Bat
count_all [] l = l
count_all (u ∷ us) l = count_all us (count_in u.number u.executed u.errors l)

abbrev pub total_executed : List Count → ℤ
total_executed [] = pos 0
total_executed (u ∷ us) = u.executed +ℤ total_executed us

abbrev pub total_errors : List Count → ℤ
total_errors [] = pos 0
total_errors (u ∷ us) = u.errors +ℤ total_errors us

IsOpen : TrafficPhase → Bat → Type 0
IsOpen p b = (error_db_registering b ≡ true) × (b.traffic_phase ≡ p)

shift : (e a b c : ℤ) → a ≡ b +ℤ e → (a +ℤ c) ≡ (b +ℤ c) +ℤ e
shift e a b c h = omega (int_laws, ap above h, ap below h)

shift_rest : (e a b c : ℤ) → b ≡ c +ℤ e → a +ℤ b ≡ (a +ℤ c) +ℤ e
shift_rest e a b c h = omega (int_laws, ap above h, ap below h)

module _ (p : TrafficPhase) where
  count_in-executed :
      (n : ℕ) (e f : ℤ) (l : List Bat)
      → All (IsOpen p) l
      → n < length l
      → (all_executed (count_in n e f l) ≡ all_executed l +ℤ e)
        × (all_errors (count_in n e f l) ≡ all_errors l +ℤ f)
        × All (IsOpen p) (count_in n e f l)
        × (length (count_in n e f l) ≡ length l)
  unfolding IsOpen
  count_in-executed n e f [] h i = absurd (omega arith)
  count_in-executed zero e f (b ∷ l) h i =
      let (r, o, t) = read-update e f b h.0.0 in
      (
        shift e _ _ (all_executed l) (ap (λ (x : ℤ × ℤ). x.0) r),
        shift f _ _ (all_errors l) (ap (λ (x : ℤ × ℤ). x.1) r),
        ((o, t ∙ h.0.1), h.1),
        refl,
      )
  count_in-executed (suc n) e f (b ∷ l) h i =
      let (x, y, o, z) = count_in-executed n e f l h.1 (omega arith) in
      (shift_rest e _ _ _ x, shift_rest f _ _ _ y, (h.0, o), ap suc z)

  count_all-executed :
      (us : List Count) (l : List Bat)
      → All (IsOpen p) l
      → All (λ u. u.number < length l) us
      → (all_executed (count_all us l) ≡ all_executed l +ℤ total_executed us)
        × (all_errors (count_all us l) ≡ all_errors l +ℤ total_errors us)
  count_all-executed [] l h i = (omega int_laws, omega int_laws)
  count_all-executed (u ∷ us) l h i =
      let (x, y, o, z) = count_in-executed u.number u.executed u.errors l h i.0 in
      let (x', y') = count_all-executed us (count_in u.number u.executed u.errors l) o (rw z i.1) in
      (
        omega (int_laws, ap above x, ap below x, ap above x', ap below x'),
        omega (int_laws, ap above y, ap below y, ap above y', ap below y'),
      )

  opening_counts :
      (l : List Bat)
      → All (λ b. (b.enable p ≡ true) × (b.traffic_phase ≡ p)) l
      → (all_executed (map (error_db_open_register p) l) ≡ pos 0)
        × (all_errors (map (error_db_open_register p) l) ≡ pos 0)
        × All (IsOpen p) (map (error_db_open_register p) l)
        × (length (map (error_db_open_register p) l) ≡ length l)
  unfolding IsOpen
  opening_counts [] h = (refl, refl, tt, refl)
  opening_counts (b ∷ l) h =
      let (r, o, t) = read-open p b h.0.0 h.0.1 in
      let (x, y, os, z) = opening_counts l h.1 in
      (rw (r, x) (omega int_laws), rw (r, y) (omega int_laws), ((o, t), os), ap suc z)

closing_counts :
    (l : List Bat)
    → (all_executed (map error_db_close_register l) ≡ all_executed l)
      × (all_errors (map error_db_close_register l) ≡ all_errors l)
closing_counts [] = (refl, refl)
closing_counts (b ∷ l) =
    let (r, t) = read-close b in let (x, y) = closing_counts l in (rw (r, x), rw (r, y))

last-write_last :
    (f : Register → Register) (l : List Register) (r : Register)
    → last? (write_last f (l ++ r ∷ [])) ≡ some (f r)
last-write_last f [] r = refl
last-write_last f (x ∷ []) r = refl
last-write_last f (x ∷ y ∷ []) r = refl
last-write_last f (x ∷ y ∷ z ∷ l) r = last-write_last f (y ∷ z ∷ l) r

if_true {ℓ κ} :
    {A : Type ℓ} (P : A → Type κ) (b : Bool) (x y : A) → b ≡ true → P x → P (if b then x else y)
if_true P true x y e h = h
if_true P false x y e h = cc

-- A stop gives the rate of the two numbers, and leaves them in the last register.
abbrev pub Gives : ℤ → ℤ → Rate × Monitor → Type 0
Gives executed errors (given, m) =
    (given ≡ rate_of errors executed)
    × ((r : Register) × (last? m.error_db ≡ some r)
        × (r.executed ≡ executed)
        × (r.errors ≡ errors)
        × (r.error_rate ≡ given))

added_zero : (i j k : ℤ) → i ≡ pos 0 → j ≡ k → i +ℤ j ≡ k
added_zero i j k h g = omega (int_laws, ap above h, ap below h, ap above g, ap below g)

stop_monitoring-Gives :
    (m : Monitor) (l : List Register) (r : Register) (e f : ℤ)
    → m.running ≡ true
    → m.monitoring ≡ true
    → m.error_db ≡ l ++ r ∷ []
    → (r.executed ≡ pos 0) × (r.errors ≡ pos 0)
    → (all_executed m.bats ≡ e) × (all_errors m.bats ≡ f)
    → Gives e f (stop_monitoring m)
unfolding stop_monitoring
stop_monitoring-Gives m l r e f running monitoring db zeros sums =
    if_true (Gives e f) m.running _ _ running
      (if_true (Gives e f) m.monitoring _ _ monitoring gives)
  where
    bats : List Bat
    bats = map error_db_close_register m.bats

    last : last? (write_last (close_with bats) m.error_db) ≡ some (close_with bats r)
    last = rw db (last-write_last (close_with bats) l r)

    executed : r.executed +ℤ all_executed bats ≡ e
    executed = added_zero _ _ _ zeros.0 ((closing_counts m.bats).0 ∙ sums.0)

    errors : r.errors +ℤ all_errors bats ≡ f
    errors = added_zero _ _ _ zeros.1 ((closing_counts m.bats).1 ∙ sums.1)

    gives : Gives e f (
      last_error_rate (close_register (record m { bats = bats })),
      record (close_register (record m { bats = bats })) { monitoring = false },
    )
    gives =
        (ap rate_at last ∙ rate, (close_with bats r, last, executed, errors, sym (ap rate_at last)))
      where
        rate : (close_with bats r).error_rate ≡ rate_of f e
        rate = rw (executed, errors) refl

-- A monitor that runs and is started in a phase that it monitors, with BATs in that phase that have
-- the same configuration. Whatever cases the BATs count until it is stopped, in any order and number,
-- the stop gives the rate of all their errors in all their cases, 0.0 without a case, and the register
-- that it closes holds the two numbers.
pub stop_monitoring-rate :
    (p : TrafficPhase) (rate : Option ℕ) (us : List Count) (m : Monitor)
    → m.running ≡ true
    → m.enable p ≡ true
    → All (λ b. (b.enable p ≡ true) × (b.traffic_phase ≡ p)) m.bats
    → All (λ u. u.number < length m.bats) us
    → (let s = start_monitoring p rate m in
        Gives
          (total_executed us)
          (total_errors us)
          (stop_monitoring (record s { bats = count_all us s.bats })))
unfolding start_monitoring
stop_monitoring-rate p rate us m running enable ready known = if_true P m.running _ _ running (
    if_true P (m.enable p) _ _ enable
      (stop_monitoring-Gives _ m.error_db _ _ _ running refl refl (refl, refl) sums))
  where
    sums :
        (all_executed (count_all us (map (error_db_open_register p) m.bats)) ≡ total_executed us)
        × (all_errors (count_all us (map (error_db_open_register p) m.bats)) ≡ total_errors us)
    sums =
        let (x, y, o, z) = opening_counts p m.bats ready in
        let (x', y') = count_all-executed p us _ o (rw z known) in
        (x' ∙ added_zero _ _ _ x refl, y' ∙ added_zero _ _ _ y refl)

    P : Monitor → Type 0
    P s =
        Gives (total_executed us) (total_errors us)
          (stop_monitoring (record s { bats = count_all us s.bats }))
