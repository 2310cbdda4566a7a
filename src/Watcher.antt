-- ===== src/Watcher.antt =====
-- hss_utils/src/dbus/signals.py: a signal as a JSON text, and the handlers of a `Watcher`.
pub mod Delivery
mod Tests
use st_tools.Prelude.{String, Option, none, some, is_some, if◌then◌else◌}
use st_tools.Prelude.Dict.{Dict, lookup, insert, erase, has}
use st_tools.Prelude.Exec.{Exec, Result, ok, err, key_error, type_error, value_error}
use st_tools.Json.{Value, Elements, text, arr, obj, field, end, get_item}

-- What arrives: no JSON, or a value.
pub data Received : Type 0 where
  garbled : Received
  json : Value → Received

unfoldable pub create_signal : String → Elements → Value
create_signal signal_id args = obj (field "signal" (text signal_id) (field "args" (arr args) end))

-- `except KeyError` gives `None` for the identity.
abbrev pub valid : (Value → String) → Result Value → Result Value → Result (Option (String × Value))
valid str (ok i) (ok args) = ok (some (str i, args))
valid str (ok i) (err key_error) = ok none
valid str (ok i) (err e) = err e
valid str (err key_error) r = ok none
valid str (err e) r = err e

-- What is no JSON stays a text, whose subscript raises `TypeError`; `str` is Python's.
unfoldable pub read_signal : (Value → String) → Received → Result (Option (String × Value))
read_signal str garbled = err type_error
read_signal str (json v) = valid str (get_item v "signal") (get_item v "args")

-- A handler with the object that it works on; it is called with the arguments of the signal.
abbrev pub Handlers : Type 0 → Type 0
Handlers S = Dict (Value → Exec S (Unit {0}))

unfoldable pub install_handler :
    {S : Type 0} → String → (Value → Exec S (Unit {0})) → Handlers S → Handlers S
install_handler signal_id handler d = insert signal_id handler d

unfoldable pub remove_handler : {S : Type 0} → String → Exec (Handlers S) (Unit {0})
remove_handler signal_id d = elim (lookup signal_id d) [
  | none ↦ (err value_error, d)
  | some h ↦ (ok tt, erase signal_id d)
]

-- An exception of the handler is logged.
abbrev pub handled :
    {S : Type 0} → Handlers S → Result (Option (String × Value)) → S → Result (Unit {0}) × S
handled d (err e) s = (err e, s)
handled d (ok none) s = (ok tt, s)
handled d (ok (some (signal_id, args))) s = elim (lookup signal_id d) [
  | none ↦ (ok tt, s)
  | some h ↦ (ok tt, (h args s).1)
]

-- `_dispatcher_`
unfoldable pub dispatcher :
    {S : Type 0} → (Value → String) → Handlers S → Received → S → Result (Unit {0}) × S
unfolding read_signal
dispatcher str d r s = handled d (read_signal str r) s
