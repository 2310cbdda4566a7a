-- ===== src/Ldif.antt =====
-- ldif_builder/ldaphelper/__init__.py: LdapConnection and its MyLdifParser, over a server and a
-- parser of LDIF that are parameters.
pub mod Errors
mod Tests
use st_tools.Prelude.{
  String, Bool, true, false, not, ◌&&◌, ◌||◌, Option, none, some, List, [], ◌∷◌, ◌==◌, starts_with,
  if◌then◌else◌,
}

pub data Kind : Type 0 where
  already_exists type_or_value_exists strong_auth_required constraint_violation undefined_type :
      Kind
  operations_error object_class_violation no_such_attribute no_such_object other : Kind

-- An exception of the package ldap, with the `info` of its dict where it has one.
pub record LdapExn : Type 0 where
  pub kind : Kind
  pub info : Option String

pub record Entry : Type 0 where
  pub dn : String
  pub attributes : List (String × List String)

-- `add_s`, `modify_s` and `delete_s` of the connection, with what they raise.
pub record Server (S : Type 0) : Type 0 where
  pub add_s : Entry → S → Option LdapExn × S
  pub modify_s : Entry → S → Option LdapExn × S
  pub delete_s : String → S → Option LdapExn × S

-- What is raised; a dict without `info` is `KeyError`, and content that is no LDIF `ValueError`.
pub data Raised : Type 0 where
  object_already_exists object_error : String → Raised
  ldap_error missing_info malformed : Raised

pub record Options : Type 0 where
  pub auto_update : Bool
  pub stop_on_error : Bool

-- `p in s`
unfoldable pub occurs_in : String → String → Bool
occurs_in p String.[] = starts_with "" p
occurs_in p (String.◌∷◌ c s) = starts_with (String.◌∷◌ c s) p || occurs_in p s

abbrev pub optional_raise : Options → Raised → Option Raised
optional_raise o x = if o.stop_on_error then some x else none

-- By the info of the exception: it is ignored where the test passes.
abbrev pub by_info : Options → Raised → (String → Bool) → Option String → Option Raised
by_info o x ignored none = some missing_info
by_info o x ignored (some info) = if ignored info then none else optional_raise o x

abbrev pub is_duplicated : String → Bool
is_duplicated info = info == "Duplicated requestedApp"

-- The handlers of `__modify_handler`.
unfoldable pub modify_failed : Options → String → Kind → Option String → Option Raised
unfolding occurs_in
modify_failed o dn type_or_value_exists info = optional_raise o (object_error dn)
modify_failed o dn strong_auth_required info = optional_raise o ldap_error
modify_failed o dn constraint_violation info =
    by_info o (object_error dn) (occurs_in "Write-once") info
modify_failed o dn operations_error info =
    by_info o (object_error dn)
      (λ i. is_duplicated i || occurs_in "Object can not be created. It already exists" i) info
modify_failed o dn no_such_attribute info = optional_raise o (object_error dn)
modify_failed o dn kind info = optional_raise o ldap_error

module _ {S : Type 0} (server : Server S) (o : Options) where
  abbrev pub modified : Entry → Option LdapExn × S → Option Raised × S
  modified e (none, s) = (none, s)
  modified e (some x, s) = (modify_failed o e.dn x.kind x.info, s)

  -- `modify`: the function is set.
  abbrev pub modify_handler : Entry → S → Option Raised × S
  modify_handler e s = modified e (server.modify_s e s)

  -- `__modify_handler` after a failed `add`; without the function its call is a `TypeError`.
  abbrev pub update_handler : Entry → S → Option Raised × S
  update_handler e s =
      if o.auto_update then modify_handler e s else (optional_raise o ldap_error, s)

  -- By the info: the entry is updated, or the exception may be raised.
  abbrev pub update_or : Raised → (String → Bool) → Entry → Option String → S → Option Raised × S
  update_or x updates e none s = (some missing_info, s)
  update_or x updates e (some info) s =
      if updates info then update_handler e s else (optional_raise o x, s)

  -- The handlers of `__add_handler`.
  unfoldable pub add_failed : Entry → Kind → Option String → S → Option Raised × S
  unfolding modify_failed
  add_failed e already_exists info s =
      if o.auto_update
      then update_handler e s
      else (optional_raise o (object_already_exists e.dn), s)
  add_failed e type_or_value_exists info s = (optional_raise o (object_error e.dn), s)
  add_failed e strong_auth_required info s = (optional_raise o ldap_error, s)
  add_failed e constraint_violation info s = (optional_raise o (object_error e.dn), s)
  add_failed e undefined_type info s =
      update_or (object_error e.dn)
        (λ i. i == "No object class with \"nodeName\" as primary attribute" && o.auto_update) e info
        s
  add_failed e operations_error info s = (by_info o (object_error e.dn) is_duplicated info, s)
  add_failed e object_class_violation info s =
      update_or (object_error e.dn) (occurs_in "not allowed as child") e info s
  add_failed e kind info s = (optional_raise o ldap_error, s)

  abbrev pub added : Entry → Option LdapExn × S → Option Raised × S
  added e (none, s) = (none, s)
  added e (some x, s) = add_failed e x.kind x.info s

  abbrev pub add_handler : Entry → S → Option Raised × S
  add_handler e s = added e (server.add_s e s)

  -- The parser hands over each entry that it reads, and then the content ends or is malformed; what is
  -- raised ends it.
  unfoldable pub parse : (Entry → S → Option Raised × S) → List Entry → Bool → S → Option Raised × S
  parse handle [] bad s = (if bad then some malformed else none, s)
  parse handle (e ∷ l) bad s =
      let (x, s') = handle e s in
      let rest = parse handle l bad s' in elim x [ some r ↦ (some r, s') | none ↦ rest ]

  unfoldable pub add : List Entry → Bool → S → Option Raised × S
  unfolding add_failed parse
  add l bad s = parse add_handler l bad s

  unfoldable pub modify : List Entry → Bool → S → Option Raised × S
  unfolding modify_failed parse
  modify l bad s = parse modify_handler l bad s

  abbrev pub deleted : String → Option LdapExn × S → Option Raised × S
  deleted dn (none, s) = (none, s)
  deleted dn (some x, s) = (optional_raise o (object_error dn), s)

  -- `delete`, of the names that are in its lines.
  unfoldable pub delete : List String → S → Option Raised × S
  delete [] s = (none, s)
  delete (dn ∷ l) s =
      let (x, s') = deleted dn (server.delete_s dn s) in
      let rest = delete l s' in elim x [ some r ↦ (some r, s') | none ↦ rest ]
