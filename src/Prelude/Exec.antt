-- ===== src/Prelude/Exec.antt =====
-- Methods that mutate an object and may raise: what was written before a raise stays written.
use Prim.Native.String.{String}
use mathlib.Core.Path.{◌≡◌, refl}
use mathlib.Core.Logic.{◌⊎◌, inl, inr}
use mathlib.Core.Option.{Option, none, some}
use mathlib.Core.Bool.{Bool}
use st_tools.Prelude.Tests.{if◌then◌else◌}

-- The exceptions that the modelled code raises or lets through.
pub data Exn : Type 0 where
  -- `FaultyAction`, with what its text names
  unknown_build already_exists no_test_info not_pending no_baseline : String → Exn
  -- raised by the language
  key_error type_error name_error attribute_error io_error value_error index_error run_error
        division_error configuration_error :
      Exn
  assertion_error : Exn

pub data Result {ℓ} (A : Type ℓ) : Type ℓ where
  ok : A → Result A
  err : Exn → Result A

pub Result-cases {ℓ} :
    {A : Type ℓ} (r : Result A) → ((a : A) × (r ≡ ok a)) ⊎ ((e : Exn) × (r ≡ err e))
Result-cases (ok a) = inl (a, refl)
Result-cases (err e) = inr (e, refl)

abbrev pub Exec {ℓ κ} : Type ℓ → Type κ → Type (ℓ ⊔ κ)
Exec S A = S → Result A × S

module _ {ℓ κ} {S : Type ℓ} {A : Type κ} where
  abbrev pub pure : A → Exec S A
  pure a s = (ok a, s)

  abbrev pub raise : Exn → Exec S A
  raise e s = (err e, s)

  abbrev pub gets : (S → A) → Exec S A
  gets f s = (ok (f s), s)

  abbrev pub lift : Result A → Exec S A
  lift r s = (r, s)

  abbrev pub or_raise : Option A → Exn → Exec S A
  or_raise none e s = (err e, s)
  or_raise (some a) e s = (ok a, s)

module _ {ℓ κ μ} {S : Type ℓ} {A : Type κ} {B : Type μ} where
  abbrev pub continue : Result A → (A → Exec S B) → Exec S B
  continue (ok a) f s = f a s
  continue (err e) f s = (err e, s)

  infixl 5 ◌>>=◌ ◌>>◌
  abbrev pub ◌>>=◌ : Exec S A → (A → Exec S B) → Exec S B
  ◌>>=◌ m f s = let (r, s') = m s in continue r f s'

  abbrev pub ◌>>◌ : Exec S A → Exec S B → Exec S B
  m >> n = m >>= λ _. n

module _ {ℓ} {S : Type ℓ} where
  abbrev pub modify : (S → S) → Exec S (Unit {0})
  modify f s = (ok tt, f s)

  abbrev pub raise_if : Bool → Exn → Exec S (Unit {0})
  raise_if b e s = (if b then err e else ok tt, s)

  -- `try: m except Exception: h`
  abbrev pub handle {κ} : {A : Type κ} → (Exn → Exec S A) → Result A → Exec S A
  handle h (ok a) s = (ok a, s)
  handle h (err e) s = h e s

  abbrev pub catch {κ} : {A : Type κ} → Exec S A → (Exn → Exec S A) → Exec S A
  catch m h s = let (r, s') = m s in handle h r s'

-- Whatever `m` does, and however it ends, `P` still holds.
abbrev pub Keeps {ℓ κ μ} : {S : Type ℓ} {A : Type κ} → (S → Type μ) → Exec S A → Type (ℓ ⊔ μ)
Keeps {S} P m = (s : S) → P s → P (m s).1

module _ {ℓ κ μ ν} {S : Type ℓ} {A : Type κ} {B : Type μ} (P : S → Type ν) where
  continue-Keeps :
      (r : Result A) (f : A → Exec S B) (s : S)
      → ((a : A) → Keeps P (f a))
      → P s
      → P (continue r f s).1
  continue-Keeps (ok a) f s kf h = kf a s h
  continue-Keeps (err e) f s kf h = h

  pub bind-Keeps :
      (m : Exec S A) (f : A → Exec S B) → Keeps P m → ((a : A) → Keeps P (f a)) → Keeps P (m >>= f)
  bind-Keeps m f km kf s h = continue-Keeps (m s).0 f (m s).1 kf (km s h)
