-- ===== src/ActionHandler/Verdict.antt =====
-- An action that counts for the verdict: no command of it ends badly and leaves the verdict good.
use st_tools.Prelude.{
  ◌≡◌, refl, sym, arith, zero, suc, inl, inr, ◌⊎◌, ℕ, String, Bool, true, false, not, some, List,
  [], ◌∷◌, ◌++◌, last?, if◌then◌else◌,
}
use mathlib.Core.Path.{subst}
use st_tools.Prelude.Int.{ℤ, pos, ◌-ℤ◌}
use st_tools.Prelude.Exec.{Result, ok, err}
use st_tools.ErrorMonitor.{Rate}
use st_tools.ActionHandler.{Action, Handler, fail_verdict, report_status, shutdown, on_executor}
use st_tools.ActionHandler.Orders.{read_udp_cmd}
use st_tools.ActionHandler.Run.{
  Answer, empty, with_code, unreadable, get_return_code, Seen, command_ended, new_line, at_eof,
  timed_out, Event, Exit, ended, returned, raised, unfinished, run_cmd, meanwhile, end_command,
  spend_time, after_order, is_zero,
}
use st_tools.ActionHandler.Guarded.{
  IsGuarded, choose, clash, fail_verdict-fails, meanwhile-IsGuarded, failed, spend_time-IsGuarded,
  read_udp_cmd-IsGuarded,
}

-- The command ends, and the shell answers with the code 0, or with nothing.
abbrev pub IsGood : Seen → Type 0
IsGood (command_ended empty) = Unit
IsGood (command_ended (with_code zero)) = Unit
IsGood s = ⊥

abbrev pub EndsWell : List Event → Type 0
EndsWell [] = ⊥
EndsWell (e ∷ l) = IsGood e.seen ⊎ EndsWell l

-- The command has ended so, and its success is reported.
abbrev pub IsSuccess : Action → List Event → Handler → Type 0
IsSuccess a l h =
    (h.error_code ≡ pos 0) × (last? h.executor.action_results ≡ some (a.id, true)) × EndsWell l

get_return_code-IsGood :
    (x : Answer) → is_zero (get_return_code x) ≡ true → IsGood (command_ended x)
unfolding get_return_code
get_return_code-IsGood empty e = tt
get_return_code-IsGood (with_code zero) e = tt
get_return_code-IsGood (with_code (suc n)) e = absurd (ground (arith, e))
get_return_code-IsGood unreadable e = absurd (ground (arith, e))

zero_of : (i : ℤ) → is_zero i ≡ true → i ≡ pos 0
zero_of i h = ground arith

negated : (b : Bool) → not b ≡ true → b ≡ false
negated true h = ground arith
negated false h = refl

affirmed : (b : Bool) → not b ≡ false → b ≡ true
affirmed true h = refl
affirmed false h = ground arith

last-append : (l : List (String × Bool)) (x : String × Bool) → last? (l ++ x ∷ []) ≡ some x
last-append [] x = refl
last-append (y ∷ []) x = refl
last-append (y ∷ z ∷ l) x = last-append (z ∷ l) x

module _ (a : Action) (counts : a.add_to_verdict ≡ true) where
  -- What the command comes to.
  abbrev pub Accounts : List Event → Exit × Handler → Type 0
  Accounts l (ended, h) = (h.executor.verdict ≡ false) ⊎ IsSuccess a l h
  Accounts l (x, h) = Unit

  later-Accounts :
      (e : Event) (l : List Event) (r : Exit × Handler) → Accounts l r → Accounts (e ∷ l) r
  later-Accounts e l (ended, h) (inl k) = inl k
  later-Accounts e l (ended, h) (inr (i, j, k)) = inr (i, j, inr k)
  later-Accounts e l (returned, h) k = tt
  later-Accounts e l (raised, h) k = tt
  later-Accounts e l (unfinished, h) k = tt

  report_status-fails :
      (h : Handler) → h.executor.verdict ≡ false → (report_status a h).executor.verdict ≡ false
  report_status-fails h e =
      choose (λ (x : Handler). x.executor.verdict ≡ false) a.report_not_valid _ _ (λ f. e) (λ f. e)

  end_command-Accounts :
      (i : ℤ) (l : List Event) (h : Handler)
      → (is_zero i ≡ true → EndsWell l)
      → Accounts l (ended, end_command a i h)
  end_command-Accounts i l h well = of_code (is_zero i) (zero_of i) well
    where
      h' : Handler
      h' = record h { error_code = i }

      of_code :
          (b : Bool)
          → (b ≡ true → i ≡ pos 0)
          → (b ≡ true → EndsWell l)
          → Accounts l (
            ended,
            record (on_executor
                (λ e. record e { action_results = e.action_results ++ (a.id, b) ∷ [] })
                (if b then h' else report_status a (fail_verdict a h'))) { executing_cmd = false },
          )
      of_code true k w = inr (k refl, last-append h.executor.action_results (a.id, true), w refl)
      of_code false k w =
          inl (report_status-fails (fail_verdict a h') (fail_verdict-fails a counts h'))

  stopped :
      (l : List Event) (h : Handler) → IsGuarded h → h.executing_cmd ≡ false → Accounts l (ended, h)
  stopped l h (inl e) f = absurd (clash h.executing_cmd e f)
  stopped l h (inr e) f = inl e

  after_order-Accounts :
      (m : List Event) (k : Handler → Exit × Handler) (r : Result (Unit {0}) × Handler)
      → IsGuarded r.1
      → ((h : Handler) → IsGuarded h → Accounts m (k h))
      → Accounts m (after_order k r)
  after_order-Accounts m k (ok u, h) g f = f h g
  after_order-Accounts m k (err e, h) g f = tt

  unended :
      (b : Bool) (h : Handler)
      → IsGuarded h
      → h.executing_cmd ≡ b
      → Accounts [] (if b then unfinished else ended, h)
  unended true h g e = tt
  unended false h g e = stopped [] h g e

  run_cmd-Accounts :
      (under : Rate → ℕ → Bool) (left : ℤ) (l : List Event) (h : Handler)
      → IsGuarded h
      → Accounts l (run_cmd under a left l h)
  unfolding run_cmd
  run_cmd-Accounts under left [] h g = unended h.executing_cmd h g refl
  run_cmd-Accounts under left (e ∷ l) h g =
      choose (Accounts (e ∷ l)) (not h'.executing_cmd) _ _
        (λ x. stopped (e ∷ l) h' g' (negated h'.executing_cmd x))
        (λ x.
          choose (Accounts (e ∷ l)) h'.force_exit _ _ (λ y. tt)
            (λ y.
              choose (Accounts (e ∷ l)) (not h'.has_node) _ _ (λ z. tt)
                (λ z. seen e.seen refl (affirmed h'.has_node z) (λ t i j.
                  later-Accounts e l (run_cmd under a t l i) (run_cmd-Accounts under t l i j)))))
    where
      h' : Handler
      h' = meanwhile a e h

      g' : IsGuarded h'
      g' = meanwhile-IsGuarded a counts e h g

      seen :
          (s : Seen)
          → e.seen ≡ s
          → h'.has_node ≡ true
          → ((t : ℤ) (x : Handler) → IsGuarded x → Accounts (e ∷ l) (run_cmd under a t l x))
          → Accounts (e ∷ l) (elim s [
            | command_ended x ↦ (ended, end_command a (get_return_code x) h')
            | new_line ↦ run_cmd under a left l h'
            | at_eof ↦ run_cmd under a left l (shutdown a (fail_verdict a h'))
            | timed_out t o ↦
                let left' = left -ℤ pos t in
                after_order
                  (λ x. run_cmd under a left' l (spend_time a left' x))
                  (read_udp_cmd under o a h')
          ])
      seen (command_ended x) q n ih =
          end_command-Accounts (get_return_code x) (e ∷ l) h'
            (λ z. inl (subst IsGood (sym q) (get_return_code-IsGood x z)))
      seen new_line q n ih = ih left h' g'
      seen at_eof q n ih = ih left (shutdown a (fail_verdict a h')) (failed a counts h')
      seen (timed_out t o) q n ih =
          after_order-Accounts (e ∷ l)
            (λ x. run_cmd under a (left -ℤ pos t) l (spend_time a (left -ℤ pos t) x))
            (read_udp_cmd under o a h') (read_udp_cmd-IsGuarded a counts under o h' n g')
            (λ x k.
              ih (left -ℤ pos t) (spend_time a (left -ℤ pos t) x)
                (spend_time-IsGuarded a counts (left -ℤ pos t) x k))

-- A command of an action with `add_to_verdict` that runs: whatever its shell shows, whatever orders
-- arrive and whatever other threads do, if the loop over its output ends, then the verdict is a
-- failure, or the command has ended and the shell, asked for the return code, has answered 0 or nothing
-- at all, which is taken for 0; then this code is kept, and the success of the action is the last result
-- that is reported.
pub run_cmd-verdict :
    (under : Rate → ℕ → Bool) (a : Action) (left : ℤ) (l : List Event) (h h' : Handler)
    → a.add_to_verdict ≡ true
    → h.executing_cmd ≡ true
    → run_cmd under a left l h ≡ (ended, h')
    → (h'.executor.verdict ≡ false) ⊎ IsSuccess a l h'
run_cmd-verdict under a left l h h' counts e r =
    rw r at (run_cmd-Accounts a counts under left l h (inl e))
