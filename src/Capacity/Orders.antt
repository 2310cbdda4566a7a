-- ===== src/Capacity/Orders.antt =====
-- What the loops over the BAT instances keep.
use st_tools.Prelude.{◌≡◌, refl, Bool, true, false, Option, none, some, List, [], ◌∷◌, ℕ}
use st_tools.Prelude.Dict.{lookup}
use st_tools.Scheduler.{Scheduler, BatData, Visit, set_target_cps}
use st_tools.Capacity.{
  Capacity, finished, give_up, Turn, goes_on, gave_up, raises, Plan, order, no_order, fails, taken,
  ordered, carry_out, order_from, order_one, order_loop,
}

-- What holds of a loop's end: `P` when all values are ordered, or else the search is over.
abbrev pub Ordered : (Capacity → Type 0) → Turn × Capacity → Type 0
Ordered P (goes_on, c) = P c
Ordered P (gave_up, c) = c.fsm ≡ finished
Ordered P (raises e, c) = Unit

pub give_up-finished : (c : Capacity) → (give_up c).fsm ≡ finished
unfolding give_up
give_up-finished c = refl

module _ (P Q : Capacity → Type 0) (plan : BatData → Plan)
    (before after : BatData → Capacity → Capacity)
    (based : (c : Capacity) (s : Scheduler) → P c → P (record c { base = s }))
    (sampled : (c : Capacity) (l : List ℕ) → P c → P (record c { load_samples = l }))
    (begins : (d : BatData) (c : Capacity) → P c → P (before d c))
    (ends : (d : BatData) (c : Capacity) → P c → Q (after d c)) where
  ordered-Ordered :
      (set : Bool) (rest : Capacity → Turn × Capacity) (c : Capacity)
      → Ordered Q (rest c)
      → Ordered Q (ordered set rest c)
  ordered-Ordered true rest c h = h
  ordered-Ordered false rest c h = give_up-finished c

  module _ (v : Visit) (rest : Capacity → Turn × Capacity)
      (goes : (e : Capacity) → Q e → Ordered Q (rest e)) where
    carry_out-Ordered :
        (p : Plan) (d : BatData) (c : Capacity)
        → P c
        → Ordered Q (carry_out before after v rest d c p)
    carry_out-Ordered (order x) d c h =
        let (set, s) = set_target_cps v.bat x v.reply (before d c).base in
        let e = record (before d c) { base = s } in
        let t = taken v.bat x e in
        ordered-Ordered set (λ u. rest (after d (taken v.bat x u))) e
          (goes (after d t) (
            ends d t (
              sampled (record e { base = t.base }) []
                (based e t.base (based (before d c) s (begins d c h))))))
    carry_out-Ordered no_order d c h = give_up-finished (before d c)
    carry_out-Ordered (fails e) d c h = tt

    order_from-Ordered :
        (o : Option BatData) (c : Capacity)
        → P c
        → Ordered Q (order_from before after v rest plan c o)
    order_from-Ordered none c h = give_up-finished c
    order_from-Ordered (some d) c h = carry_out-Ordered (plan d) d c h

    -- A turn, and then the rest.
    pub order_one-Ordered : (c : Capacity) → P c → Ordered Q (order_one before after v rest plan c)
    unfolding order_one
    order_one-Ordered c h = order_from-Ordered (lookup v.bat c.base.data_of) c h

pub order_loop-Ordered :
    (P : Capacity → Type 0) (plan : BatData → Plan) (before after : BatData → Capacity → Capacity)
    → ((c : Capacity) (s : Scheduler) → P c → P (record c { base = s }))
    → ((c : Capacity) (l : List ℕ) → P c → P (record c { load_samples = l }))
    → ((d : BatData) (c : Capacity) → P c → P (before d c))
    → ((d : BatData) (c : Capacity) → P c → P (after d c))
    → (vs : List Visit) (c : Capacity) → P c
    → Ordered P (order_loop plan before after vs c)
unfolding order_loop
order_loop-Ordered P plan before after b s k l [] c h = h
order_loop-Ordered P plan before after b s k l (v ∷ vs) c h =
    order_one-Ordered P P plan before after b s k l v (order_loop plan before after vs)
      (order_loop-Ordered P plan before after b s k l vs) c h
