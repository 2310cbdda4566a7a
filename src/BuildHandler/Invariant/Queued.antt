-- ===== src/BuildHandler/Invariant/Queued.antt =====
-- The invariant, and the queue operations under it.
use st_tools.Prelude.{
  ◌≡◌, ◌≢◌, refl, String, true, false, some, [], ◌∷◌, arith, inl, inr, Option-cases, Bool-cases,
  drop_last, contains, remove, eq_iff, eq_refl, ◌==◌,
}
use mathlib.Core.Path.{subst₂}
use st_tools.Prelude.Distinct.{
  IsDistinct, contains-append, contains_of_remove, not-contains-remove, remove-IsDistinct,
  contains_of_after, not-contains-after, after-IsDistinct, append-IsDistinct, contains_of_drop_last,
  drop_last-IsDistinct,
}
use st_tools.Prelude.Dict.{
  Dict, lookup, modify, has, IsDict, lookup-insert, lookup-modify, insert-IsDict, modify-IsDict,
}
use st_tools.BuildHandler.{Project, Build, drop_idle}
use st_tools.BuildHandler.Naming.{get_project}
use st_tools.BuildHandler.Queue.{
  add_pending, enqueue, unqueue, promote, clear_high, pop_pending, only,
}

-- A project `k` queues builds of its own that the database knows, each of them once.
pub record IsSound (d : Dict Build) (k : String) (p : Project) : Type 0 where
  pub distinct : IsDistinct p.pending
  pub pending_known : (b : String) → contains b p.pending ≡ true → has b d ≡ true
  pub pending_here : (b : String) → contains b p.pending ≡ true → get_project b ≡ k
  pub high_known : (b : String) → p.high_priority ≡ some b → has b d ≡ true
  pub high_here : (b : String) → p.high_priority ≡ some b → get_project b ≡ k
  pub high_not_pending : (b : String) → p.high_priority ≡ some b → contains b p.pending ≡ false

module _ (d : Dict Build) (k : String) (p : Project) (h : IsSound d k p) where
  pub add_pending-IsSound :
      (a : String)
      → has a d ≡ true
      → get_project a ≡ k
      → p.high_priority ≢ some a
      → IsSound d k (add_pending a p)
  unfolding add_pending contains
  add_pending-IsSound a known here free = elim (Bool-cases (contains a p.pending)) [
    | inl e ↦ rw e h
    | inr e ↦ rw e (record {
      distinct = append-IsDistinct a p.pending h.distinct e;
      pending_known = λ b q.
          ground (arith, contains-append b p.pending (a ∷ []), eq_iff a b, h.pending_known b);
      pending_here =
          λ b q. ground (arith, contains-append b p.pending (a ∷ []), eq_iff a b, h.pending_here b);
      high_known = h.high_known;
      high_here = h.high_here;
      high_not_pending = λ b q.
          ground (arith, contains-append b p.pending (a ∷ []), eq_iff a b, h.high_not_pending b);
    })
  ]

  pub unqueue-IsSound : (a : String) → IsSound d k (unqueue a p)
  unfolding unqueue
  unqueue-IsSound a = record {
    distinct = ground (arith, remove-IsDistinct a p.pending h.distinct, h.distinct);
    pending_known = λ b q. ground (arith, contains_of_remove a b p.pending, h.pending_known b);
    pending_here = λ b q. ground (arith, contains_of_remove a b p.pending, h.pending_here b);
    high_known = λ b q. ground (arith, h.high_known b);
    high_here = λ b q. ground (arith, h.high_here b);
    high_not_pending = λ b q. ground (
      arith,
      Bool-cases (contains b (remove a p.pending)),
      contains_of_remove a b p.pending,
      h.high_not_pending b,
    );
  }

  -- No trace of the build is left in the project.
  pub not-queued-unqueue :
      (a : String)
      → (contains a (unqueue a p).pending ≡ false) × ((unqueue a p).high_priority ≢ some a)
  unfolding unqueue
  not-queued-unqueue a = (
    ground (arith, not-contains-remove a p.pending h.distinct),
    λ e. ground (arith, eq_refl a, h.high_not_pending a),
  )

  pub promote-IsSound : (a : String) → IsSound d k (promote a p)
  unfolding promote
  promote-IsSound a = elim (Bool-cases (contains a p.pending)) [
    | inl e ↦ rw e (record {
      distinct = after-IsDistinct a p.pending h.distinct;
      pending_known = λ b q. h.pending_known b (contains_of_after a b p.pending q);
      pending_here = λ b q. h.pending_here b (contains_of_after a b p.pending q);
      high_known = λ b q. ground (arith, h.pending_known a);
      high_here = λ b q. ground (arith, h.pending_here a);
      high_not_pending = λ b q. ground (arith, not-contains-after a p.pending h.distinct);
    })
    | inr e ↦ rw e h
  ]

  pub clear_high-IsSound : IsSound d k (clear_high p)
  unfolding clear_high
  clear_high-IsSound = record {
    distinct = h.distinct;
    pending_known = h.pending_known;
    pending_here = h.pending_here;
    high_known = λ b q. cc;
    high_here = λ b q. cc;
    high_not_pending = λ b q. cc;
  }

  pub pop_pending-IsSound : IsSound d k (pop_pending p)
  unfolding pop_pending
  pop_pending-IsSound = record {
    distinct = drop_last-IsDistinct p.pending h.distinct;
    pending_known = λ b q. h.pending_known b (contains_of_drop_last b p.pending q);
    pending_here = λ b q. h.pending_here b (contains_of_drop_last b p.pending q);
    high_known = h.high_known;
    high_here = h.high_here;
    high_not_pending = λ b q. ground (
      arith,
      Bool-cases (contains b (drop_last p.pending)),
      contains_of_drop_last b p.pending,
      h.high_not_pending b,
    );
  }

-- Every project of the queue is sound.
abbrev pub AllSound : Dict Build → Dict Project → Type 0
AllSound d q = (k : String) (p : Project) → lookup k q ≡ some p → IsSound d k p

pub modify-AllSound :
    (d : Dict Build) (q : Dict Project) (i : String) (f : Project → Project)
    → ((p : Project) → lookup i q ≡ some p → IsSound d i p → IsSound d i (f p))
    → AllSound d q
    → AllSound d (modify i f q)
modify-AllSound d q i f keep h k p e = elim (Option-cases (lookup k q)) [
  | inl n ↦ ground (arith, lookup-modify i k f q)
  | inr (r, at) ↦ elim (Bool-cases (i == k)) [
    | inl t ↦
        let here : lookup i q ≡ some r = ground (arith, eq_iff i k) in
        subst₂ (λ j x. IsSound d j x) ((eq_iff i k).0 t) (ground (arith, lookup-modify i k f q))
          (keep r here (h i r here))
    | inr t ↦ h k p (ground (arith, lookup-modify i k f q))
  ]
]

pub drop_idle-lookup :
    (k : String) (p : Project) (q : Dict Project)
    → IsDict q
    → lookup k (drop_idle q) ≡ some p
    → lookup k q ≡ some p
unfolding lookup drop_idle
drop_idle-lookup k p [] i e = e
drop_idle-lookup k p ((j, r) ∷ q) i e = ground (arith, eq_iff j k, drop_idle-lookup k p q i.1)

pub drop_idle-IsDict : (q : Dict Project) → IsDict q → IsDict (drop_idle q)
unfolding drop_idle
drop_idle-IsDict [] i = tt
drop_idle-IsDict ((j, r) ∷ q) i = elim (Option-cases (lookup j (drop_idle q))) [
  | inl e ↦ ground (arith, drop_idle-IsDict q i.1)
  | inr (p, e) ↦ ground (arith, drop_idle-lookup j p q i.1 e)
]

pub drop_idle-AllSound :
    (d : Dict Build) (q : Dict Project) → IsDict q → AllSound d q → AllSound d (drop_idle q)
drop_idle-AllSound d q i h k p e = h k p (drop_idle-lookup k p q i e)

pub enqueue-IsDict : (a : String) (q : Dict Project) → IsDict q → IsDict (enqueue a q)
unfolding enqueue
enqueue-IsDict a q i = elim (Option-cases (lookup (get_project a) q)) [
  | inl e ↦ rw (e, enqueue) (insert-IsDict (get_project a) (only a) q i)
  | inr (p, e) ↦ rw (e, enqueue) (modify-IsDict (get_project a) (add_pending a) q i)
]

single-IsSound : (d : Dict Build) (a : String) → has a d ≡ true → IsSound d (get_project a) (only a)
unfolding contains
single-IsSound d a known = record {
  distinct = (refl, tt);
  pending_known = λ b q. ground (arith, eq_iff a b);
  pending_here = λ b q. ground (arith, eq_iff a b);
  high_known = λ b q. cc;
  high_here = λ b q. cc;
  high_not_pending = λ b q. cc;
}

-- The build is nowhere of high priority.
abbrev pub NotHigh : String → Dict Project → Type 0
NotHigh a q = (p : Project) → lookup (get_project a) q ≡ some p → p.high_priority ≢ some a

pub enqueue-AllSound :
    (d : Dict Build) (a : String) (q : Dict Project)
    → has a d ≡ true
    → NotHigh a q
    → AllSound d q
    → AllSound d (enqueue a q)
unfolding enqueue
enqueue-AllSound d a q known free h = elim (Option-cases (lookup (get_project a) q)) [
  | inl e ↦
      rw (e, enqueue)
        λ k p l. elim (Bool-cases (get_project a == k)) [
          | inl t ↦
              subst₂ (λ j x. IsSound d j x) ((eq_iff (get_project a) k).0 t)
                (ground (arith, lookup-insert (get_project a) k (only a) q))
                (single-IsSound d a known)
          | inr t ↦ h k p (ground (arith, lookup-insert (get_project a) k (only a) q))
        ]
  | inr (r, e) ↦
      rw (e, enqueue)
        (modify-AllSound d q (get_project a) (add_pending a)
          (λ p at s. add_pending-IsSound d (get_project a) p s a known refl (free p at)) h)
]
