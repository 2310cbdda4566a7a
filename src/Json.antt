-- ===== src/Json.antt =====
-- The values that `json.load` and the D-Bus calls hand over (Python's `json`), and what the
-- services do with them: subscripts, `update` and the test of a value by `if`.
use st_tools.Prelude.{
  ℕ, zero, suc, String, Bool, true, false, Option, none, some, ◌≡◌, refl, arith, ◌==◌, eq_iff,
  if◌then◌else◌,
}
use st_tools.Prelude.Exec.{Result, ok, err, key_error, type_error, attribute_error}

mutual
  pub data Value : Type 0 where
    null : Value
    bool : Bool → Value
    num : ℕ → Value
    text : String → Value
    arr : Elements → Value
    obj : Fields → Value

  pub data Elements : Type 0 where
    nil : Elements
    cons : Value → Elements → Elements

  pub data Fields : Type 0 where
    end : Fields
    field : String → Value → Fields → Fields

unfoldable pub find : String → Fields → Option Value
find k end = none
find k (field j v fs) = if j == k then some v else find k fs

unfoldable pub put : String → Value → Fields → Fields
put k v end = field k v end
put k v (field j w fs) = if j == k then field j v fs else field j w (put k v fs)

-- A text's truth value, by its first character.
abbrev nonempty : String → Bool
nonempty String.[] = false
nonempty (String.◌∷◌ c s) = true

-- The truth value that `if v:` tests.
unfoldable pub truthy : Value → Bool
truthy null = false
truthy (bool b) = b
truthy (num zero) = false
truthy (num (suc n)) = true
truthy (text s) = nonempty s
truthy (arr nil) = false
truthy (arr (cons v vs)) = true
truthy (obj end) = false
truthy (obj (field k v fs)) = true

abbrev pub or_key_error : Option Value → Result Value
or_key_error none = err key_error
or_key_error (some v) = ok v

-- `v[k]` for a text `k`.
unfoldable pub get_item : Value → String → Result Value
get_item (obj fs) k = or_key_error (find k fs)
get_item v k = err type_error

-- `v.update({k: w})`
unfoldable pub update : Value → String → Value → Result Value
update (obj fs) k w = ok (obj (put k w fs))
update v k w = err attribute_error

-- `v[k] = w`
unfoldable pub set_item : Value → String → Value → Result Value
set_item (obj fs) k w = ok (obj (put k w fs))
set_item v k w = err type_error

pub find-put :
    (k j : String) (v : Value) (fs : Fields)
    → find j (put k v fs) ≡ (if k == j then some v else find j fs)
unfolding find put
find-put k j v end = refl
find-put k j v (field i w fs) =
    ground (arith, eq_iff k j, eq_iff i k, eq_iff i j, find-put k j v fs)
