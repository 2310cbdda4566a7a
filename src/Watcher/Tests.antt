-- ===== src/Watcher/Tests.antt =====
-- A watcher with one handler that counts.
use st_tools.Prelude.{◌≡◌, refl, ℕ, suc, String, some, [], ◌==◌, if◌then◌else◌}
use st_tools.Prelude.Exec.{Exec, ok}
use st_tools.Json.{Value, nil, text, arr}
use st_tools.Watcher.{json, create_signal, read_signal, install_handler, dispatcher}
use st_tools.Watcher.Delivery.{read_signal-create_signal, install_handler-delivers}

abbrev str : Value → String
str (text s) = s
str v = ""

abbrev count : Value → Exec ℕ (Unit {0})
count args n = (ok tt, suc n)

read_signal-create_signal_example :
    read_signal str (json (create_signal "cli_status" nil)) ≡ ok (some ("cli_status", arr nil))
read_signal-create_signal_example = read_signal-create_signal str "cli_status" nil refl

install_handler-delivers_example :
    dispatcher str (install_handler "cli_status" count []) (json (create_signal "cli_status" nil)) 3
    ≡ (if "cli_status" == "cli_status"
        then (ok tt, (count (arr nil) 3).1)
        else dispatcher str [] (json (create_signal "cli_status" nil)) 3)
install_handler-delivers_example =
    install_handler-delivers str "cli_status" "cli_status" count [] nil 3 refl
