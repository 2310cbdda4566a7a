-- ===== src/Ldif/Errors.antt =====
-- What a connection does with errors that do not stop it.
use st_tools.Prelude.{
  ◌≡◌, refl, ap, ◌⊎◌, inl, inr, ◌++◌, arith, String, Bool, true, false, Option, none, some, List,
  [], ◌∷◌, if◌then◌else◌,
}
use st_tools.Ldif.{
  Kind, already_exists, type_or_value_exists, strong_auth_required, constraint_violation,
  undefined_type, operations_error, object_class_violation, no_such_attribute, no_such_object,
  other, LdapExn, Entry, Server, Raised, missing_info, malformed, object_error, ldap_error,
  object_already_exists, is_duplicated, Options, optional_raise, by_info, occurs_in, modify_failed,
  modified, modify_handler, update_handler, update_or, add_failed, added, add_handler, parse, add,
  modify,
}

-- Nothing is raised, or the exception had no `info`.
abbrev pub Says : Option Raised → Option String → Type 0
Says r info = (r ≡ none) ⊎ ((r ≡ some missing_info) × (info ≡ none))

-- An exception without `info`, of the server, when it adds or modifies the entry.
abbrev pub IsUninformed : {S : Type 0} → Server S → Entry → Type 0
IsUninformed {S} server e =
    (s : S) × (x : LdapExn) × (((server.add_s e s).0 ≡ some x) ⊎ ((server.modify_s e s).0 ≡ some x))
    × (x.info ≡ none)

-- Every entry is handled, one after the other.
unfoldable pub handle_all : {S : Type 0} → (Entry → S → Option Raised × S) → List Entry → S → S
handle_all handle [] s = s
handle_all handle (e ∷ l) s = handle_all handle l (handle e s).1

by_info-Says :
    (o : Options) (x : Raised) (f : String → Bool) (info : Option String)
    → o.stop_on_error ≡ false
    → Says (by_info o x f info) info
by_info-Says o x f none h = inr (refl, refl)
by_info-Says o x f (some info) h = inl (ground (arith, h))

modify_failed-Says :
    (o : Options) (dn : String) (k : Kind) (info : Option String)
    → o.stop_on_error ≡ false
    → Says (modify_failed o dn k info) info
unfolding modify_failed
modify_failed-Says o dn already_exists info h = inl (rw h refl)
modify_failed-Says o dn type_or_value_exists info h = inl (rw h refl)
modify_failed-Says o dn strong_auth_required info h = inl (rw h refl)
modify_failed-Says o dn constraint_violation info h = by_info-Says o (object_error dn) _ info h
modify_failed-Says o dn undefined_type info h = inl (rw h refl)
modify_failed-Says o dn operations_error info h = by_info-Says o (object_error dn) _ info h
modify_failed-Says o dn object_class_violation info h = inl (rw h refl)
modify_failed-Says o dn no_such_attribute info h = inl (rw h refl)
modify_failed-Says o dn no_such_object info h = inl (rw h refl)
modify_failed-Says o dn other info h = inl (rw h refl)

module _ {S : Type 0} (server : Server S) (o : Options) (goes_on : o.stop_on_error ≡ false) where
  -- What the handling of an entry comes to.
  abbrev Comes : Entry → Option Raised × S → Type 0
  Comes e r = (r.0 ≡ none) ⊎ ((r.0 ≡ some missing_info) × IsUninformed server e)

  modified-Comes :
      (e : Entry) (s : S) (r : Option LdapExn × S)
      → server.modify_s e s ≡ r
      → Comes e (modified server o e r)
  modified-Comes e s (none, s') h = inl refl
  modified-Comes e s (some x, s') h = elim (modify_failed-Says o e.dn x.kind x.info goes_on) [
    | inl p ↦ inl p
    | inr (p, q) ↦ inr (p, (s, x, inr (ap (λ t. t.0) h), q))
  ]

  modify_handler-Comes : (e : Entry) (s : S) → Comes e (modify_handler server o e s)
  modify_handler-Comes e s = modified-Comes e s (server.modify_s e s) refl

  if-Comes :
      (e : Entry) (b : Bool) (x y : Option Raised × S)
      → Comes e x
      → Comes e y
      → Comes e (if b then x else y)
  if-Comes e true x y h i = h
  if-Comes e false x y h i = i

  update_handler-Comes : (e : Entry) (s : S) → Comes e (update_handler server o e s)
  update_handler-Comes e s =
      if-Comes e o.auto_update (modify_handler server o e s) (optional_raise o ldap_error, s)
        (modify_handler-Comes e s) (inl (rw goes_on refl))

  update_or-Comes :
      (x : Raised) (f : String → Bool) (e : Entry) (info : Option String) (s : S)
      → (info ≡ none → IsUninformed server e)
      → Comes e (update_or server o x f e info s)
  update_or-Comes x f e none s i = inr (refl, i refl)
  update_or-Comes x f e (some info) s i =
      if-Comes e (f info) (update_handler server o e s) (optional_raise o x, s)
        (update_handler-Comes e s) (inl (rw goes_on refl))

  by_info-Comes :
      (x : Raised) (f : String → Bool) (e : Entry) (info : Option String) (s : S)
      → (info ≡ none → IsUninformed server e)
      → Comes e (by_info o x f info, s)
  by_info-Comes x f e info s i = elim (by_info-Says o x f info goes_on) [
    | inl p ↦ inl p
    | inr (p, q) ↦ inr (p, i q)
  ]

  add_failed-Comes :
      (e : Entry) (k : Kind) (info : Option String) (s : S)
      → (info ≡ none → IsUninformed server e)
      → Comes e (add_failed server o e k info s)
  unfolding add_failed
  add_failed-Comes e already_exists info s i =
      if-Comes e o.auto_update (update_handler server o e s)
        (optional_raise o (object_already_exists e.dn), s) (update_handler-Comes e s)
        (inl (rw goes_on refl))
  add_failed-Comes e type_or_value_exists info s i = inl (rw goes_on refl)
  add_failed-Comes e strong_auth_required info s i = inl (rw goes_on refl)
  add_failed-Comes e constraint_violation info s i = inl (rw goes_on refl)
  add_failed-Comes e undefined_type info s i = update_or-Comes (object_error e.dn) _ e info s i
  add_failed-Comes e operations_error info s i =
      by_info-Comes (object_error e.dn) is_duplicated e info s i
  add_failed-Comes e object_class_violation info s i =
      update_or-Comes (object_error e.dn) (occurs_in "not allowed as child") e info s i
  add_failed-Comes e no_such_attribute info s i = inl (rw goes_on refl)
  add_failed-Comes e no_such_object info s i = inl (rw goes_on refl)
  add_failed-Comes e other info s i = inl (rw goes_on refl)

  added-Comes :
      (e : Entry) (s : S) (r : Option LdapExn × S)
      → server.add_s e s ≡ r
      → Comes e (added server o e r)
  added-Comes e s (none, s') h = inl refl
  added-Comes e s (some x, s') h =
      add_failed-Comes e x.kind x.info s' (λ q. (s, x, inl (ap (λ t. t.0) h), q))

  add_handler-Comes : (e : Entry) (s : S) → Comes e (add_handler server o e s)
  add_handler-Comes e s = added-Comes e s (server.add_s e s) refl

-- How an import ends: all entries have been handled, and it raises if and only if the content is then
-- malformed; or the entries up to one of them have been handled, for which the server has raised an
-- exception without `info`, and this is the `KeyError` that is raised.
abbrev pub Imports :
    {S : Type 0}
    → Server S
    → (Entry → S → Option Raised × S)
    → List Entry
    → Bool
    → S
    → Option Raised × S
    → Type 0
Imports server handle l bad s r =
    (r ≡ (if bad then some malformed else none, handle_all handle l s))
    ⊎ ((done : List Entry) × (e : Entry) × (left : List Entry) × (l ≡ done ++ e ∷ left)
        × IsUninformed server e
        × (r ≡ (some missing_info, handle_all handle (done ++ e ∷ []) s)))

parse-Imports :
    {S : Type 0} (server : Server S) (o : Options) (handle : Entry → S → Option Raised × S)
    → ((e : Entry) (s : S)
        → ((handle e s).0 ≡ none) ⊎ (((handle e s).0 ≡ some missing_info) × IsUninformed server e))
    → (l : List Entry) (bad : Bool) (s : S)
    → Imports server handle l bad s (parse server o handle l bad s)
unfolding parse handle_all
parse-Imports server o handle h [] bad s = inl refl
parse-Imports server o handle h (e ∷ l) bad s = elim (h e s) [
  | inl p ↦ elim (parse-Imports server o handle h l bad (handle e s).1) [
    | inl q ↦ inl (rw (p, parse) q)
    | inr (done, f, left, a, b, c) ↦ inr (e ∷ done, f, left, ap (λ k. e ∷ k) a, b, rw (p, parse) c)
  ]
  | inr (p, q) ↦ inr ([], e, l, refl, q, rw (p, parse) refl)
]

-- Without `stop_on_error`, whatever the server does with the entries and however the content ends: `add`
-- and `modify` hand over every entry and then raise only if the content is malformed, except that an
-- exception of the server that has no `info` may end them with `KeyError` at its entry, after all the
-- entries before.
pub add-Imports :
    {S : Type 0} (server : Server S) (o : Options) (l : List Entry) (bad : Bool) (s : S)
    → o.stop_on_error ≡ false
    → Imports server (add_handler server o) l bad s (add server o l bad s)
      × Imports server (modify_handler server o) l bad s (modify server o l bad s)
unfolding add modify
add-Imports server o l bad s h = (
  parse-Imports server o (add_handler server o) (add_handler-Comes server o h) l bad s,
  parse-Imports server o (modify_handler server o) (modify_handler-Comes server o h) l bad s,
)
