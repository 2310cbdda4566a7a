-- ===== src/Suite/Progress.antt =====
-- The test cases before the next one are over, and those from there are not executed.
use st_tools.Prelude.{
  ℕ, zero, suc, ◌+◌, ◌≡◌, refl, sym, ap, ◌∙◌, arith, Bool, true, false, none, some, List, [], ◌∷◌,
  if◌then◌else◌, get_elem?, All,
}
use st_tools.Prelude.Int.{above, below}
use st_tools.Suite.{
  Status, not_executed, skipped, finished, not_finished, TestCase, update_at, insert_at, set_all,
  is_ended,
}

abbrev pub is_over : Status → Bool
is_over skipped = true
is_over finished = true
is_over not_finished = true
is_over s = false

abbrev pub IsOver : TestCase → Type 0
IsOver t = is_over t.status ≡ true

-- Not executed, and with a number of retries that is not below 0.
abbrev pub IsFresh : TestCase → Type 0
IsFresh t = (t.status ≡ not_executed) × (below t.nof_retries ≡ 0)

abbrev pub IsSplit : ℕ → List TestCase → Type 0
IsSplit zero l = All IsFresh l
IsSplit (suc n) [] = ⊥
IsSplit (suc n) (t ∷ l) = IsOver t × IsSplit n l

-- How many executions the cases from the position `n` may still take.
unfoldable pub executions : ℕ → List TestCase → ℕ
executions n [] = 0
executions zero (t ∷ l) = suc (above t.nof_retries) + executions zero l
executions (suc n) (t ∷ l) = executions n l

-- The case at `n` is being executed.
abbrev pub Spot : (TestCase → Type 0) → ℕ → List TestCase → Type 0
Spot P n [] = ⊥
Spot P zero (t ∷ l) = P t × All IsFresh l
Spot P (suc n) (t ∷ l) = IsOver t × Spot P n l

pub IsSplit-Spot :
    (n : ℕ) (l : List TestCase) (t : TestCase)
    → IsSplit n l
    → get_elem? l n ≡ some t
    → Spot (λ u. (u.status ≡ not_executed) × (u.nof_retries ≡ t.nof_retries)) n l
      × (executions n l ≡ suc (above t.nof_retries) + executions (suc n) l)
      × (below t.nof_retries ≡ 0)
unfolding executions
IsSplit-Spot n [] t h e = ground (arith, e)
IsSplit-Spot zero (u ∷ l) t h e =
    let same : u ≡ t = cc in
    (
      ((h.0.0, ap (λ x. x.nof_retries) same), h.1),
      ap (λ x. suc (above x.nof_retries) + executions 0 l) same,
      sym (ap (λ x. below x.nof_retries) same) ∙ h.0.1,
    )
IsSplit-Spot (suc n) (u ∷ l) t h e = let (a, b, c) = IsSplit-Spot n l t h.1 e in ((h.0, a), b, c)

pub Spot-IsSplit :
    (P : TestCase → Type 0) (n : ℕ) (l : List TestCase)
    → ((t : TestCase) → P t → IsOver t)
    → Spot P n l
    → IsSplit (suc n) l
Spot-IsSplit P zero (t ∷ l) f h = (f t h.0, h.1)
Spot-IsSplit P (suc n) (t ∷ l) f h = (h.0, Spot-IsSplit P n l f h.1)
Spot-IsSplit P zero [] f h = absurd h
Spot-IsSplit P (suc n) [] f h = absurd h

pub update_at-Spot :
    (P Q : TestCase → Type 0) (f : TestCase → TestCase) (n : ℕ) (l : List TestCase)
    → ((t : TestCase) → P t → Q (f t))
    → Spot P n l
    → Spot Q n (update_at n f l)
unfolding update_at
update_at-Spot P Q f zero (t ∷ l) k h = (k t h.0, h.1)
update_at-Spot P Q f (suc n) (t ∷ l) k h = (h.0, update_at-Spot P Q f n l k h.1)
update_at-Spot P Q f zero [] k h = absurd h
update_at-Spot P Q f (suc n) [] k h = absurd h

pub executions-update_at :
    (f : TestCase → TestCase) (n : ℕ) (l : List TestCase)
    → executions (suc n) (update_at n f l) ≡ executions (suc n) l
unfolding executions update_at
executions-update_at f n [] = refl
executions-update_at f zero (t ∷ l) = refl
executions-update_at f (suc n) (t ∷ l) = executions-update_at f n l

-- What the report says of a case is no matter here.
abbrev marked : Bool → TestCase → TestCase
marked b t = record t { report_not_valid = b }

mark-IsFresh :
    (b : Bool) (m : ℕ) (l : List TestCase) → All IsFresh l → All IsFresh (update_at m (marked b) l)
unfolding update_at
mark-IsFresh b m [] h = tt
mark-IsFresh b zero (t ∷ l) h = (h.0, h.1)
mark-IsFresh b (suc m) (t ∷ l) h = (h.0, mark-IsFresh b m l h.1)

pub mark-Spot :
    (P : TestCase → Type 0) (b : Bool) (m n : ℕ) (l : List TestCase)
    → ((t : TestCase) → P t → P (marked b t))
    → Spot P n l
    → Spot P n (update_at m (marked b) l)
unfolding update_at
mark-Spot P b m zero [] k h = absurd h
mark-Spot P b m (suc n) [] k h = absurd h
mark-Spot P b zero zero (t ∷ l) k h = (k t h.0, h.1)
mark-Spot P b zero (suc n) (t ∷ l) k h = (h.0, h.1)
mark-Spot P b (suc m) zero (t ∷ l) k h = (h.0, mark-IsFresh b m l h.1)
mark-Spot P b (suc m) (suc n) (t ∷ l) k h = (h.0, mark-Spot P b m n l k h.1)

pub executions-mark :
    (b : Bool) (m n : ℕ) (l : List TestCase)
    → executions n (update_at m (marked b) l) ≡ executions n l
unfolding executions update_at
executions-mark b m n [] = refl
executions-mark b zero zero (t ∷ l) = refl
executions-mark b zero (suc n) (t ∷ l) = refl
executions-mark b (suc m) zero (t ∷ l) =
    ap (λ x. suc (above t.nof_retries) + x) (executions-mark b m zero l)
executions-mark b (suc m) (suc n) (t ∷ l) = executions-mark b m n l

-- The same for all cases.
mark_one-IsFresh : (b c : Bool) (t : TestCase) → IsFresh t → IsFresh (if c then marked b t else t)
mark_one-IsFresh b true t h = h
mark_one-IsFresh b false t h = h

mark_one-IsOver : (b c : Bool) (t : TestCase) → IsOver t → IsOver (if c then marked b t else t)
mark_one-IsOver b true t h = h
mark_one-IsOver b false t h = h

pub set_all-IsFresh : (b : Bool) (l : List TestCase) → All IsFresh l → All IsFresh (set_all b l)
unfolding set_all
set_all-IsFresh b [] h = tt
set_all-IsFresh b (t ∷ l) h =
    (mark_one-IsFresh b (is_ended t.status) t h.0, set_all-IsFresh b l h.1)

pub set_all-IsSplit : (b : Bool) (n : ℕ) (l : List TestCase) → IsSplit n l → IsSplit n (set_all b l)
unfolding set_all
set_all-IsSplit b zero l h = set_all-IsFresh b l h
set_all-IsSplit b (suc n) [] h = absurd h
set_all-IsSplit b (suc n) (t ∷ l) h =
    (mark_one-IsOver b (is_ended t.status) t h.0, set_all-IsSplit b n l h.1)

pub set_all-Spot :
    (P : TestCase → Type 0) (b : Bool) (n : ℕ) (l : List TestCase)
    → ((t : TestCase) (c : Bool) → P t → P (if c then marked b t else t))
    → Spot P n l
    → Spot P n (set_all b l)
unfolding set_all
set_all-Spot P b zero [] k h = absurd h
set_all-Spot P b (suc n) [] k h = absurd h
set_all-Spot P b zero (t ∷ l) k h = (k t (is_ended t.status) h.0, set_all-IsFresh b l h.1)
set_all-Spot P b (suc n) (t ∷ l) k h =
    (mark_one-IsOver b (is_ended t.status) t h.0, set_all-Spot P b n l k h.1)

mark_one-retries :
    (b c : Bool) (t : TestCase) → (if c then marked b t else t).nof_retries ≡ t.nof_retries
mark_one-retries b true t = refl
mark_one-retries b false t = refl

pub executions-set_all :
    (b : Bool) (n : ℕ) (l : List TestCase) → executions n (set_all b l) ≡ executions n l
unfolding executions set_all
executions-set_all b n [] = refl
executions-set_all b zero (t ∷ l) =
    rw (mark_one-retries b (is_ended t.status) t, executions-set_all b zero l) refl
executions-set_all b (suc n) (t ∷ l) = executions-set_all b n l

pub insert_at-IsSplit :
    (n : ℕ) (u : TestCase) (l : List TestCase)
    → IsFresh u
    → IsSplit n l
    → IsSplit n (insert_at n u l)
unfolding insert_at
insert_at-IsSplit zero u l f h = (f, h)
insert_at-IsSplit (suc n) u [] f h = absurd h
insert_at-IsSplit (suc n) u (t ∷ l) f h = (h.0, insert_at-IsSplit n u l f h.1)

pub executions-insert_at :
    (n : ℕ) (u : TestCase) (l : List TestCase)
    → IsSplit n l
    → executions n (insert_at n u l) ≡ suc (above u.nof_retries) + executions n l
unfolding executions insert_at
executions-insert_at zero u [] h = refl
executions-insert_at zero u (t ∷ l) h = refl
executions-insert_at (suc n) u [] h = absurd h
executions-insert_at (suc n) u (t ∷ l) h = executions-insert_at n u l h.1

-- With no case left, all are over.
pub IsSplit-end : (n : ℕ) (l : List TestCase) → IsSplit n l → get_elem? l n ≡ none → All IsOver l
IsSplit-end n [] h e = tt
IsSplit-end zero (t ∷ l) h e = ground (arith, e)
IsSplit-end (suc n) (t ∷ l) h e = (h.0, IsSplit-end n l h.1 e)
