-- ===== src/ActionHandler/Config.antt =====
-- The actions that a configuration gives: `ActionHandler.__init__`.
use st_tools.Prelude.{
  String, Bool, true, false, not, ◌&&◌, ◌||◌, Option, none, some, List, [], ◌∷◌, ◌==◌,
  if◌then◌else◌,
}
use st_tools.Prelude.Int.{ℤ}
use st_tools.Prelude.Exec.{Result, ok, err, configuration_error}
use st_tools.ActionHandler.{Action, is_minus_one}

-- `enable` is a boolean or the name of a macro; a load is a number or the name of a reference.
pub data Flag : Type 0 where
  flag : Bool → Flag
  macro_name : String → Flag

pub data Load : Type 0 where
  number : ℤ → Load
  reference : String → Load

-- An action of the file, with the fields that it may lack; `rest` has those that it gives or a default.
pub record Entry : Type 0 where
  pub enable : Option Flag
  pub has_cmd : Bool
  pub has_id : Bool
  pub load : Option Load
  pub has_time : Bool
  pub rest : Action

abbrev pub is_enabled : (String → Option String) → Flag → Bool
is_enabled macros (flag b) = b
is_enabled macros (macro_name m) = elim (macros m) [ none ↦ false | some v ↦ v == "true" ]

-- A reference without a load is -1.
abbrev pub load_of : (String → ℤ) → Load → Result ℤ
load_of references (number n) = ok n
load_of references (reference r) =
    if is_minus_one (references r) then err configuration_error else ok (references r)

abbrev pub needs_load : Load → Bool
needs_load (number n) = not (is_minus_one n)
needs_load (reference r) = true

abbrev pub with_load : Action → Result ℤ → Result Action
with_load a (ok n) = ok (record a { trigger_load = n })
with_load a (err e) = err e

-- An action that is enabled.
unfoldable pub read_action : (String → ℤ) → Bool → Entry → Result Action
read_action references traffic e =
    if not (e.has_cmd && e.has_id) then err configuration_error else elim e.load [
      | none ↦ err configuration_error
      | some l ↦
          if needs_load l && not traffic || not e.has_time
          then err configuration_error
          else with_load e.rest (load_of references l)
    ]

-- Whether an action needs the monitor of the load.
abbrev pub needs_monitor : Action → Bool
needs_monitor a = not (is_minus_one a.trigger_load) || a.disable_load_monitor

abbrev pub with_rest : Result Action → Result (List Action) → Result (List Action)
with_rest (err e) r = err e
with_rest (ok a) (err e) = err e
with_rest (ok a) (ok l) = ok (a ∷ l)

unfoldable pub read_actions :
    (String → Option String) → (String → ℤ) → Bool → List Entry → Result (List Action)
unfolding read_action
read_actions macros references traffic [] = ok []
read_actions macros references traffic (e ∷ l) =
    let rest = read_actions macros references traffic l in
    elim e.enable [
      | none ↦ err configuration_error
      | some f ↦
          if is_enabled macros f then with_rest (read_action references traffic e) rest else rest
    ]

abbrev pub any_needs : List Action → Bool
any_needs [] = false
any_needs (a ∷ l) = needs_monitor a || any_needs l

abbrev pub with_monitors : Bool → Bool → Bool → List Action → Result (List Action)
with_monitors traffic has_load has_error [] = ok []
with_monitors traffic has_load has_error (a ∷ l) =
    if traffic && any_needs (a ∷ l) && not has_load
    then err configuration_error
    else if traffic && not has_error
    then err configuration_error
    else ok (a ∷ l)

abbrev pub then_monitors : Bool → Bool → Bool → Result (List Action) → Result (List Action)
then_monitors traffic has_load has_error (ok l) = with_monitors traffic has_load has_error l
then_monitors traffic has_load has_error (err e) = err e

-- `has_load` and `has_error` say whether the monitors are more than fakes.
unfoldable pub configure :
    (String → Option String) → (String → ℤ) → Bool → Bool → Bool → List Entry → Result (List Action)
unfolding read_actions
configure macros references traffic has_load has_error l =
    then_monitors traffic has_load has_error (read_actions macros references traffic l)
