-- ===== src/BuildHandler/Invariant/Removal.antt =====
-- `clean_build` and `purge_build` under the invariant.
use st_tools.Prelude.{
  ℕ, ◌+◌, ◌≡◌, ◌≢◌, refl, String, true, false, ◌&&◌, not, Option, none, some, List, [], ◌∷◌, arith,
  inl, inr, Option-cases, Bool-cases, contains, starts_with, eq_iff, ◌==◌,
}
use st_tools.Prelude.Dict.{
  Dict, lookup, erase, has, keys, values, IsDict, lookup-erase, erase-IsDict,
}
use st_tools.Prelude.Exec.{Keeps, bind-Keeps}
use st_tools.BuildHandler.{Project, Build, Service, set_build_info, update_db}
use st_tools.BuildHandler.Queue.{priority_del}
use st_tools.BuildHandler.Sweep.{
  drop_build, remove_build, sweep, sweep_idle, clean_one, clean_loop, clean_build, purge_loop,
  purge_build, is_ongoing,
}
use st_tools.BuildHandler.Invariant.Queued.{IsSound}
use st_tools.BuildHandler.Invariant.Steps.{
  IsConsistent, clean_priority-IsConsistent, modify_build-IsConsistent, priority_del-IsConsistent,
  priority_del-NotQueued, set_build_info-IsConsistent,
}

pub contains-values :
    (k b : String) (m : Dict String) → lookup k m ≡ some b → contains b (values m) ≡ true
unfolding lookup values contains
contains-values k b [] h = cc
contains-values k b ((j, c) ∷ m) h = ground (arith, eq_iff c b, contains-values k b m)

-- The project does not queue the build.
abbrev Misses : String → Project → Type 0
Misses a p = (contains a p.pending ≡ false) × (p.high_priority ≢ some a)

erased-known : (a b : String) (d : Dict Build) → has b d ≡ true → a ≢ b → has b (erase a d) ≡ true
erased-known a b d h n = ground (arith, eq_iff a b, lookup-erase a b d)

erase-IsSound :
    (a k : String) (d : Dict Build) (p : Project)
    → IsSound d k p
    → Misses a p
    → IsSound (erase a d) k p
erase-IsSound a k d p h m = record {
  distinct = h.distinct;
  pending_known = λ b q. erased-known a b d (h.pending_known b q) (λ e. ground (arith, m.0));
  pending_here = h.pending_here;
  high_known = λ b q. erased-known a b d (h.high_known b q) (λ e. m.1 (rw e q));
  high_here = h.high_here;
  high_not_pending = h.high_not_pending;
}

erase-IsConsistent :
    (a : String) (m : Dict String) (s : Service)
    → IsConsistent s.db
    → ((k : String) (p : Project) → lookup k s.db.priority ≡ some p → Misses a p)
    → s.db.baselines ≡ some m
    → contains a (values m) ≡ false
    → IsConsistent (set_build_info (erase a) s).db
erase-IsConsistent a m s h gone is unused = record {
  queue_dict = h.queue_dict;
  builds_dict = erase-IsDict a s.db.build_info h.builds_dict;
  sound = λ k p e. erase-IsSound a k s.db.build_info p (h.sound k p e) (gone k p e);
  baselines_known = λ k b e.
      erased-known a b s.db.build_info (h.baselines_known k b e)
        (λ same. ground (arith, contains-values k b m));
}

remove_build-IsConsistent :
    (key : String) (o : Option (Dict String)) (s : Service)
    → IsConsistent s.db
    → ((k : String) (p : Project) → lookup k s.db.priority ≡ some p → Misses key p)
    → s.db.baselines ≡ o
    → IsConsistent (remove_build key o s).1.db
unfolding remove_build drop_build
remove_build-IsConsistent key none s h gone is = h
remove_build-IsConsistent key (some m) s h gone is = elim (Bool-cases (contains key (values m))) [
  | inl u ↦ simp u (modify_build-IsConsistent key _ s h)
  | inr u ↦ simp u (erase-IsConsistent key m s h gone is u)
]

-- Removing a build, or the results of a baseline.
sweep-Keeps : (key : String) → Keeps (λ s. IsConsistent s.db) (sweep key)
unfolding sweep
sweep-Keeps key s h =
    remove_build-IsConsistent key _ (priority_del key false s)
      (priority_del-IsConsistent key false s h) (λ k p. priority_del-NotQueued key k p s h) refl

sweep_idle-Keeps : (key : String) → Keeps (λ s. IsConsistent s.db) (sweep_idle key)
unfolding sweep_idle
sweep_idle-Keeps key s h = elim (Option-cases (lookup key s.db.build_info)) [
  | inl e ↦ simp e h
  | inr (b, e) ↦ elim (Bool-cases (is_ongoing b.status)) [
    | inl u ↦ simp (e, u) h
    | inr u ↦ simp (e, u) (sweep-Keeps key s h)
  ]
]

clean_one-Keeps :
    (wildcard exclude key : String)
    → Keeps (λ s. IsConsistent s.db) (clean_one wildcard exclude key)
unfolding clean_one
clean_one-Keeps wildcard exclude key s h =
    elim (Bool-cases (starts_with key wildcard && not (key == exclude))) [
      | inl u ↦ simp u (sweep_idle-Keeps key s h)
      | inr u ↦ simp u h
    ]

clean_loop-Keeps :
    (wildcard exclude : String) (ks : List String) (n : ℕ)
    → Keeps (λ s. IsConsistent s.db) (clean_loop wildcard exclude ks n)
unfolding clean_loop
clean_loop-Keeps wildcard exclude [] n s h = h
clean_loop-Keeps wildcard exclude (key ∷ rest) n s h =
    bind-Keeps (λ t. IsConsistent t.db) (clean_one wildcard exclude key) _
      (clean_one-Keeps wildcard exclude key) (λ k. clean_loop-Keeps wildcard exclude rest (n + k)) s
      h

-- `clean_build`, whatever it removes and however it ends.
pub clean_build-IsConsistent :
    (wildcard exclude : String) (s : Service)
    → IsConsistent s.db
    → IsConsistent (clean_build wildcard exclude s).1.db
unfolding clean_build update_db
clean_build-IsConsistent wildcard exclude s h =
    bind-Keeps (λ t. IsConsistent t.db) (clean_loop wildcard exclude (keys s.db.build_info) 0) _
      (clean_loop-Keeps wildcard exclude (keys s.db.build_info) 0)
      (λ n t v. clean_priority-IsConsistent t v) s h

purge_loop-has : (wildcard b : String) (d : Dict Build) → has b (purge_loop wildcard d).0 ≡ has b d
unfolding purge_loop lookup
purge_loop-has wildcard b [] = refl
purge_loop-has wildcard b ((k, x) ∷ d) = ground (arith, purge_loop-has wildcard b d)

purge_loop-IsDict :
    (wildcard : String) (d : Dict Build) → IsDict d → IsDict (purge_loop wildcard d).0
unfolding purge_loop
purge_loop-IsDict wildcard [] i = tt
purge_loop-IsDict wildcard ((k, x) ∷ d) i =
    ground (arith, purge_loop-has wildcard k d, purge_loop-IsDict wildcard d i.1)

pub purge_build-IsConsistent :
    (wildcard : String) (s : Service)
    → IsConsistent s.db
    → IsConsistent (purge_build wildcard s).1.db
unfolding purge_build update_db
purge_build-IsConsistent wildcard s h = clean_priority-IsConsistent _ (
    set_build_info-IsConsistent (λ _. (purge_loop wildcard s.db.build_info).0) s h
      (purge_loop-IsDict wildcard s.db.build_info h.builds_dict)
      (λ b e. rw (purge_loop-has wildcard b s.db.build_info) e))
