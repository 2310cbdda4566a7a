-- ===== src/Bat/Counts.antt =====
-- The traffic cases that a BAT writes to its open register, over any number of samples.
use st_tools.Prelude.{
  zero, suc, ◌≡◌, refl, inl, inr, arith, ap, ◌∙◌, ℕ, ◌+◌, String, Bool, true, false, Option, none,
  some, List, [], ◌∷◌, if◌then◌else◌, Option-cases,
}
use st_tools.Prelude.Int.{ℤ, pos, negsuc, ◌+ℤ◌, ◌-ℤ◌, ltb_ℤ, above, below, int_laws}
use st_tools.Prelude.Dict.{Dict, lookup, modify, keys}
use st_tools.Bat.{
  TrafficPhase, error_db_update_register, error_db_registering, error_db_read_register_counters,
}
use st_tools.Bat.Registers.{read-update}
use st_tools.Bat.Statistics.{
  Script, Stats, Line, Sampler, Totals, totals, missing_script, no_division, value_in, is_empty,
  read_lines, add_script, count_found, count_scripts, register_totals, with_totals, is_zero,
  next_phase,
}

-- The traffic cases of the scripts in a phase.
abbrev executed_of : TrafficPhase → Option Script → ℕ
executed_of p none = 0
executed_of p (some v) = (value_in p v).errors + (value_in p v).success

pub executed_in : TrafficPhase → List String → Stats → ℤ
executed_in p [] st = pos 0
executed_in p (k ∷ l) st = pos (executed_of p (lookup k st.scripts)) +ℤ executed_in p l st

-- The cases between two values of a script.
abbrev between : ℕ → ℕ → ℕ → ℕ → ℤ
between e f s t = (pos e -ℤ pos f) +ℤ (pos s -ℤ pos t)

abbrev Found : ℤ → ℤ → Totals → Type 0
Found x e t = (e' : ℤ) × (f' : ℤ) × (t ≡ totals e' f') × (e ≡ x +ℤ e')

add_script-totals : (x y : ℤ) (t : Totals) (e f : ℤ) → add_script x y t ≡ totals e f → Found x e t
add_script-totals x y (totals e' f') e f h = (e', f', refl, cc)
add_script-totals x y missing_script e f h = cc
add_script-totals x y no_division e f h = cc

choose-totals :
    (b : Bool) (x y : ℤ) (t : Totals) (e f : ℤ)
    → (if b then no_division else add_script x y t) ≡ totals e f
    → Found x e t
choose-totals true x y t e f h = cc
choose-totals false x y t e f h = add_script-totals x y t e f h

shift :
    (a b c d : ℕ) (i j e e' : ℤ)
    → e ≡ between a b c d +ℤ e'
    → i +ℤ e' ≡ j
    → (pos (b + d) +ℤ i) +ℤ e ≡ pos (a + c) +ℤ j
shift a b c d i j e e' h k = omega (int_laws, ap above h, ap below h, ap above k, ap below k)

count_found-executed :
    (p : TrafficPhase) (o o' : Option Script) (t : Totals) (i j e f : ℤ)
    → count_found p o o' t ≡ totals e f
    → ((e' f' : ℤ) → t ≡ totals e' f' → i +ℤ e' ≡ j)
    → (pos (executed_of p o') +ℤ i) +ℤ e ≡ pos (executed_of p o) +ℤ j
count_found-executed p none o' t i j e f h k = cc
count_found-executed p (some v) none t i j e f h k = cc
count_found-executed p (some v) (some w) t i j e f h k =
    let (e', f', g, x) = choose-totals _ _ _ t e f h in
    shift (value_in p v).errors (value_in p w).errors (value_in p v).success (value_in p w).success
      i j e e' x (k e' f' g)

pub count_scripts-executed :
    (p : TrafficPhase) (now before : Stats) (l : List String) (e f : ℤ)
    → count_scripts p now before l ≡ totals e f
    → executed_in p l before +ℤ e ≡ executed_in p l now
unfolding count_scripts executed_in
count_scripts-executed p now before [] e f h =
    let x : e ≡ pos 0 = cc in omega (int_laws, ap above x, ap below x)
count_scripts-executed p now before (k ∷ l) e f h =
    count_found-executed p (lookup k now.scripts) (lookup k before.scripts)
      (count_scripts p now before l) (executed_in p l before) (executed_in p l now) e f h
      (count_scripts-executed p now before l)

keys-modify : (k : String) (f : Script → Script) (d : Dict Script) → keys (modify k f d) ≡ keys d
unfolding keys modify
keys-modify k f [] = refl
keys-modify k f ((j, w) ∷ d) = rw (keys-modify k f d)

pub read_lines-keys :
    (l : List (Option Line)) (p : TrafficPhase) (st : Stats)
    → keys (read_lines l p st).1.scripts ≡ keys st.scripts
unfolding read_lines
read_lines-keys [] p st = refl
read_lines-keys (none ∷ l) p st = refl
read_lines-keys (some n ∷ l) p st =
    let ih =
      read_lines-keys l (next_phase n.values p)
        (record { time = n.time; scripts = modify n.script (λ _. n.values) st.scripts }) in
    elim (Option-cases (lookup n.script st.scripts)) [
      | inl e ↦ rw (e, read_lines) refl
      | inr (v, e) ↦ rw (e, read_lines) (ih ∙ keys-modify n.script (λ _. n.values) st.scripts)
    ]

pub filled :
    (st : Stats) (k : String) (l : List String) → keys st.scripts ≡ k ∷ l → is_empty st ≡ false
unfolding keys
filled st k l h = of_list st.scripts h
  where
    of_list :
        (d : Dict Script) → keys d ≡ k ∷ l → is_empty (record { time = 0; scripts = d }) ≡ false
    of_list [] h = cc
    of_list (e ∷ d) h = refl

-- The register of phase `p` is open and holds the cases that were executed since some moment, at which
-- they were `c` fewer.
pub record Counting (p : TrafficPhase) (k : String) (l : List String) (c : ℤ) (s : Sampler)
    : Type 0 where
  pub opened : error_db_registering s.bat ≡ true
  pub has_file : s.has_stat_file ≡ true
  pub known : keys s.error_template.scripts ≡ k ∷ l
  pub begun : is_empty s.last_stats ≡ false
  pub balance : (error_db_read_register_counters s.bat).0 +ℤ c ≡ executed_in p (k ∷ l) s.last_stats

added_nothing : (r c e i j : ℤ) → is_zero e ≡ true → r +ℤ c ≡ i → i +ℤ e ≡ j → r +ℤ c ≡ j
added_nothing r c (pos zero) i j z h x =
    omega (int_laws, ap above h, ap below h, ap above x, ap below x)
added_nothing r c (pos (suc n)) i j z h x = absurd (ground arith)
added_nothing r c (negsuc n) i j z h x = absurd (ground arith)

added : (r c e i j : ℤ) → r +ℤ c ≡ i → i +ℤ e ≡ j → (r +ℤ e) +ℤ c ≡ j
added r c e i j h x = omega (int_laws, ap above h, ap below h, ap above x, ap below x)

module _ {p : TrafficPhase} {k : String} {l : List String} {c : ℤ} where
  -- The counters of a sample are written.
  written :
      (e f : ℤ) (s : Sampler)
      → Counting p k l c s
      → executed_in p (k ∷ l) s.last_stats +ℤ e ≡ executed_in p (k ∷ l) s.current_stats
      → is_empty s.current_stats ≡ false
      → Counting p k l c (register_totals e f s)
  written e f s h x n = record {
    opened = choose (is_zero e) h.opened (read-update e f s.bat h.opened).1;
    has_file = h.has_file;
    known = h.known;
    begun = n;
    balance = balance_of (is_zero e) refl;
  }
    where
      choose :
          (b : Bool)
          → error_db_registering s.bat ≡ true
          → error_db_registering (error_db_update_register e f s.bat) ≡ true
          → error_db_registering (if b then s.bat else error_db_update_register e f s.bat) ≡ true
      choose true x y = x
      choose false x y = y

      balance_of :
          (b : Bool)
          → is_zero e ≡ b
          → (error_db_read_register_counters
                (if b then s.bat else error_db_update_register e f s.bat)).0
              +ℤ c
            ≡ executed_in p (k ∷ l) s.current_stats
      balance_of true z =
          added_nothing (error_db_read_register_counters s.bat).0 c e _ _ z h.balance x
      balance_of false z =
          rw ((read-update e f s.bat h.opened).0)
            (added (error_db_read_register_counters s.bat).0 c e _ _ h.balance x)

  pub with_totals-Counting :
      (t : Totals) (s : Sampler)
      → Counting p k l c s
      → ((e f : ℤ)
          → t ≡ totals e f
          → executed_in p (k ∷ l) s.last_stats +ℤ e ≡ executed_in p (k ∷ l) s.current_stats)
      → is_empty s.current_stats ≡ false
      → Counting p k l c (with_totals t s).1
  with_totals-Counting missing_script s h x n = h
  with_totals-Counting no_division s h x n = h
  with_totals-Counting (totals e f) s h x n =
      either (ltb_ℤ (pos s.current_stats.time -ℤ pos s.last_stats.time) (pos s.sampling_time))
    where
      either : (b : Bool) → Counting p k l c (if b then s else register_totals e f s)
      either true = h
      either false = written e f s h (x e f refl) n
