-- ===== src/Watcher/Delivery.antt =====
-- From `emit` to the handler.
use st_tools.Prelude.{◌≡◌, refl, String, some, arith, ◌==◌, if◌then◌else◌}
use st_tools.Prelude.Dict.{insert, lookup-insert}
use st_tools.Prelude.Exec.{Exec, ok}
use st_tools.Json.{Value, Elements, text, arr, get_item, find}
use st_tools.Watcher.{
  json, create_signal, read_signal, Handlers, install_handler, handled, dispatcher,
}

-- A signal is read as it was created; `str` of a text is that text.
pub read_signal-create_signal :
    (str : Value → String) (signal_id : String) (args : Elements)
    → str (text signal_id) ≡ signal_id
    → read_signal str (json (create_signal signal_id args)) ≡ ok (some (signal_id, arr args))
unfolding read_signal create_signal get_item find
read_signal-create_signal str signal_id args e = rw e refl

delivered :
    {S : Type 0} (str : Value → String) (d : Handlers S) (signal_id : String) (args : Elements)
    (s : S)
    → str (text signal_id) ≡ signal_id
    → dispatcher str d (json (create_signal signal_id args)) s
      ≡ handled d (ok (some (signal_id, arr args))) s
unfolding dispatcher
delivered str d signal_id args s e = rw (read_signal-create_signal str signal_id args e) refl

-- A handler that is installed for a signal is run with the arguments of the signal, also in place of
-- an earlier handler, and the dispatcher returns whatever it raises; any other signal is treated
-- as before. `str` of a text is that text.
pub install_handler-delivers :
    {S : Type 0} (str : Value → String) (i j : String) (h : Value → Exec S (Unit {0}))
    (d : Handlers S) (args : Elements) (s : S)
    → str (text j) ≡ j
    → dispatcher str (install_handler i h d) (json (create_signal j args)) s ≡ (
        if i == j
        then (ok tt, (h (arr args) s).1)
        else dispatcher str d (json (create_signal j args)) s)
unfolding install_handler
install_handler-delivers str i j h d args s e =
    rw (delivered str (insert i h d) j args s e, delivered str d j args s e)
      (ground (arith, lookup-insert i j h d))
