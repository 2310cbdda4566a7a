-- ===== src/Capacity/Descent.antt =====
-- The way down from the limit: how low the values get.
use mathlib.Core.Path.{subst}
use st_tools.Prelude.{
  ◌≡◌, inl, inr, refl, sym, ap, ◌∙◌, arith, Option, none, some, List, [], ◌∷◌, ◌++◌, ℕ, zero, suc,
  All, append_assoc, append-nil, get_elem?, Bool-cases, String, ◌==◌,
}
use st_tools.Prelude.Int.{ℤ, ◌≤ℤ◌}
use st_tools.Prelude.Dict.{Dict, lookup, modify, lookup-modify}
use st_tools.Scheduler.{
  BatData, Visit, Event, set_value, start_error_monitor, verdict_failed, request_stop_phase, Reply,
  emit, set_target_cps, not_running, refuses, accepts,
}
use st_tools.Capacity.{
  Capacity, Reading, Plan, order, no_order, fails, Turn, goes_on, gave_up, raises, used, taken,
  give_up, ordered, carry_out, order_from, order_one, order_loop,
}
use st_tools.Capacity.Plans.{plan_down, as_is}
use st_tools.Capacity.Search.{step_down, turned, next_step}

-- An order is not below the value of the step `n`.
abbrev pub IsAbove : ℕ → Dict BatData → Event → Type 0
IsAbove n table (set_value bat x) =
    (d : BatData) (good : ℤ)
    → lookup bat table ≡ some d
    → get_elem? d.used_target n ≡ some good
    → good ≤ℤ x
IsAbove n table e = Unit

-- What was used in the step `n` stays known.
abbrev KeepsStep : ℕ → Dict BatData → Dict BatData → Type 0
KeepsStep n table table' =
    (bat : String) (d : BatData) (good : ℤ)
    → lookup bat table ≡ some d
    → get_elem? d.used_target n ≡ some good
    → (d' : BatData) × (lookup bat table' ≡ some d') × (get_elem? d'.used_target n ≡ some good)

get_elem?-append :
    (l m : List ℤ) (n : ℕ) (x : ℤ) → get_elem? l n ≡ some x → get_elem? (l ++ m) n ≡ some x
get_elem?-append [] m n x e = ground (arith, e)
get_elem?-append (y ∷ l) m zero x e = e
get_elem?-append (y ∷ l) m (suc n) x e = get_elem?-append l m n x e

used-KeepsStep :
    (n : ℕ) (table table' : Dict BatData) (bat : String) (x : ℤ)
    → KeepsStep n table table'
    → KeepsStep n table (modify bat (used x) table')
used-KeepsStep n table table' bat x h b d good e g =
    let (d', e', g') = h b d good e g in
    elim (Bool-cases (bat == b)) [
      | inl same ↦ (
        used x d',
        ground (arith, lookup-modify bat b (used x) table'),
        get_elem?-append d'.used_target (x ∷ []) n good g',
      )
      | inr other ↦ (d', ground (arith, lookup-modify bat b (used x) table'), g')
    ]

-- A value that is ordered on the way down is not below the candidate's.
plan_down-bound :
    (n : ℕ) (d : BatData) (good y : ℤ)
    → get_elem? d.used_target n ≡ some good
    → plan_down (some n) d ≡ order y
    → good ≤ℤ y
unfolding plan_down
plan_down-bound n d good y f e = ground arith

-- The events of the way down that were added so far.
abbrev pub Adds : ℕ → Dict BatData → List Event → List Event → Type 0
Adds n table sent out = (l : List Event) × (out ≡ sent ++ l) × All (IsAbove n table) l

All-append : (P : Event → Type 0) (l : List Event) (e : Event) → All P l → P e → All P (l ++ e ∷ [])
All-append P [] e h p = (p, tt)
All-append P (x ∷ l) e h p = (h.0, All-append P l e h.1 p)

append-Adds :
    (n : ℕ) (table : Dict BatData) (sent out : List Event) (e : Event)
    → Adds n table sent out
    → IsAbove n table e
    → Adds n table sent (out ++ e ∷ [])
append-Adds n table sent out e (l, f, a) h = (
  l ++ e ∷ [],
  ap (λ x. x ++ e ∷ []) f ∙ append_assoc sent l (e ∷ []),
  All-append (IsAbove n table) l e a h,
)

module _ (n : ℕ) (table : Dict BatData) (sent : List Event) where
  give_up-Adds :
      (c : Capacity) → Adds n table sent c.base.sent → Adds n table sent (give_up c).base.sent
  unfolding give_up
  give_up-Adds c h =
      append-Adds n table sent (c.base.sent ++ verdict_failed ∷ []) request_stop_phase
        (append-Adds n table sent c.base.sent verdict_failed h tt) tt

  module _ (v : Visit) (rest : Capacity → Turn × Capacity)
      (goes : (e : Capacity)
        → Adds n table sent e.base.sent
        → KeepsStep n table e.base.data_of
        → Adds n table sent (rest e).1.base.sent) where
    reply-Adds :
        (q : Reply) (x : ℤ) (c : Capacity)
        → IsAbove n table (set_value v.bat x)
        → Adds n table sent c.base.sent
        → KeepsStep n table c.base.data_of
        → let (set, s) = set_target_cps v.bat x q c.base in
          Adds n table sent
            (ordered set (λ e. rest (taken v.bat x e)) (record c { base = s })).1.base.sent
    unfolding set_target_cps
    reply-Adds not_running x c above h k = give_up-Adds c h
    reply-Adds refuses x c above h k =
        give_up-Adds (record c { base = emit (set_value v.bat x) c.base })
          (append-Adds n table sent c.base.sent (set_value v.bat x) h above)
    reply-Adds accepts x c above h k =
        goes (taken v.bat x (record c { base = emit (set_value v.bat x) c.base }))
          (append-Adds n table sent c.base.sent (set_value v.bat x) h above)
          (used-KeepsStep n table c.base.data_of v.bat x k)

    carry_out-Adds :
        (p : Plan) (d : BatData) (c : Capacity)
        → lookup v.bat c.base.data_of ≡ some d
        → plan_down (some n) d ≡ p
        → Adds n table sent c.base.sent
        → KeepsStep n table c.base.data_of
        → Adds n table sent (carry_out as_is as_is v rest d c p).1.base.sent
    carry_out-Adds (order x) d c at e h k =
        reply-Adds v.reply x c
          (λ d' good f g.
            let (d'', i, j) = k v.bat d' good f g in plan_down-bound n d good x (cc) e)
          h k
    carry_out-Adds no_order d c at e h k = give_up-Adds c h
    carry_out-Adds (fails x) d c at e h k = h

    order_from-Adds :
        (o : Option BatData) (c : Capacity)
        → lookup v.bat c.base.data_of ≡ o
        → Adds n table sent c.base.sent
        → KeepsStep n table c.base.data_of
        → Adds n table sent (order_from as_is as_is v rest (plan_down (some n)) c o).1.base.sent
    order_from-Adds none c at h k = give_up-Adds c h
    order_from-Adds (some d) c at h k = carry_out-Adds (plan_down (some n) d) d c at refl h k

  order_loop-Adds :
      (vs : List Visit) (c : Capacity)
      → Adds n table sent c.base.sent
      → KeepsStep n table c.base.data_of
      → Adds n table sent (order_loop (plan_down (some n)) as_is as_is vs c).1.base.sent
  unfolding order_loop order_one
  order_loop-Adds [] c h k = h
  order_loop-Adds (v ∷ vs) c h k =
      order_from-Adds v (order_loop (plan_down (some n)) as_is as_is vs) (order_loop-Adds vs)
        (lookup v.bat c.base.data_of) c refl h k

turned-Adds :
    (n : ℕ) (table : Dict BatData) (sent : List Event) (r : Reading) (t : Turn × Capacity)
    → Adds n table sent t.1.base.sent
    → Adds n table sent (turned (next_step r) t).1.base.sent
turned-Adds n table sent r (goes_on, c) h =
    append-Adds n table sent c.base.sent start_error_monitor h tt
turned-Adds n table sent r (gave_up, c) h = h
turned-Adds n table sent r (raises e, c) h = h

-- A step down with a candidate `n`: no BAT instance is told a value below the one that it used in the
-- step `n`.
pub step_down-bound :
    (r : Reading) (vs : List Visit) (c : Capacity) (n : ℕ)
    → c.candidate ≡ some n
    → (l : List Event) × ((step_down r vs c).1.base.sent ≡ c.base.sent ++ l)
      × All (IsAbove n c.base.data_of) l
unfolding step_down
step_down-bound r vs c n e =
    turned-Adds n c.base.data_of c.base.sent r (order_loop (plan_down c.candidate) as_is as_is vs c)
      (subst
        (λ o.
          Adds n c.base.data_of c.base.sent (order_loop (plan_down o) as_is as_is vs c).1.base.sent)
        (sym e)
        (order_loop-Adds n c.base.data_of c.base.sent vs c ([], sym (append-nil c.base.sent), tt)
          (λ bat d good f g. (d, f, g))))
