-- ===== src/Ldif/Tests.antt =====
-- A server that has every object, and one whose exceptions have no info.
use st_tools.Prelude.{◌≡◌, refl, String, true, false, none, some, List, [], ◌∷◌, ◌++◌}
use st_tools.Ldif.{
  already_exists, operations_error, LdapExn, Entry, Server, Options, missing_info, add, modify,
  add_handler, modify_handler,
}
use st_tools.Ldif.Errors.{Imports, add-Imports}

abbrev exists_already : LdapExn
exists_already = record { kind = already_exists; info = some "Entry exists" }

-- The names of the entries that were modified.
abbrev full : Server (List String)
full = record {
  add_s = λ e s. (some exists_already, s);
  modify_s = λ e s. (none, s ++ e.dn ∷ []);
  delete_s = λ dn s. (none, s);
}

abbrev options : Options
options = record { auto_update = true; stop_on_error = false }

abbrev entries : List Entry
entries = record { dn = "ou=a"; attributes = [] } ∷ record { dn = "ou=b"; attributes = [] } ∷ []

updates_both : add full options entries false [] ≡ (none, "ou=a" ∷ "ou=b" ∷ [])
unfolding add
updates_both = refl

abbrev silent : Server (List String)
silent = record {
  add_s = λ e s. (some (record { kind = operations_error; info = none }), s);
  modify_s = λ e s. (none, s);
  delete_s = λ dn s. (none, s);
}

-- An exception without info is let through, whatever the options.
raises_missing : add silent options entries false [] ≡ (some missing_info, [])
unfolding add
raises_missing = refl

add-Imports_example :
    Imports silent (add_handler silent options) entries true [] (add silent options entries true [])
    × Imports silent
        (modify_handler silent options)
        entries
        true
        []
        (modify silent options entries true [])
add-Imports_example = add-Imports silent options entries true [] refl
