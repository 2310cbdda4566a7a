-- ===== src/BuildHandler/Invariant/Records.antt =====
-- The methods on builds and baselines under the invariant.
use st_tools.Prelude.{
  ◌≡◌, ◌⊎◌, String, Bool, true, false, Option, none, some, [], arith, inl, inr, Option-cases,
  Bool-cases, map_option,
}
use st_tools.Prelude.Dict.{
  Dict, lookup, insert, erase, has, lookup-insert, lookup-erase, insert-IsDict,
}
use st_tools.Prelude.Exec
use st_tools.Prelude.Exec.{Result, ok, err, continue, pure, ◌>>=◌, ◌>>◌, Keeps, bind-Keeps}
use st_tools.Json.{Value, truthy}
use st_tools.BuildHandler.{Build, Status, not_tested, Service, update_db}
use st_tools.BuildHandler.Naming.{get_release, baseline_of}
use st_tools.BuildHandler.Builds.{
  build_info_add, build_info_update, copy_info, copy_key, set_test_info, add_build_test_result,
  write_status, update_build_status, is_listed, can_force, force_build_status,
  update_build_test_info,
}
use st_tools.BuildHandler.Baselines.{put_baseline, baseline_add, baseline_del}
use st_tools.BuildHandler.Invariant.Steps.{
  IsConsistent, set_build_info-IsConsistent, modify_build-IsConsistent,
}

pub build_info_add-IsConsistent :
    (build : String) (info : Value) (s : Service)
    → IsConsistent s.db
    → IsConsistent (build_info_add build info s).1.db
unfolding build_info_add update_db
build_info_add-IsConsistent build info s h = elim (Bool-cases (has build s.db.build_info)) [
  | inl e ↦ simp e h
  | inr e ↦ simp e (
      set_build_info-IsConsistent (insert build new) s h
        (insert-IsDict build new s.db.build_info h.builds_dict)
        (λ b q. ground (arith, lookup-insert build b new s.db.build_info)))
]
  where
    new : Build
    new = record { test_info = info; test_result = []; status = not_tested }

set_info-IsConsistent :
    (build : String) (r : Result Value) (s : Service)
    → IsConsistent s.db
    → IsConsistent (continue r (λ t. Exec.modify (set_test_info build t)) s).1.db
set_info-IsConsistent build (ok t) s h = modify_build-IsConsistent build _ s h
set_info-IsConsistent build (err e) s h = h

copy_info-Keeps :
    (build key : String) (info : Value) → Keeps (λ s. IsConsistent s.db) (copy_info build key info)
unfolding copy_info
copy_info-Keeps build key info s h = elim (Option-cases (lookup build s.db.build_info)) [
  | inl e ↦ simp e h
  | inr (b, e) ↦ simp e (set_info-IsConsistent build (copy_key key info b.test_info) s h)
]

pub build_info_update-IsConsistent :
    (build : String) (info : Value) (s : Service)
    → IsConsistent s.db
    → IsConsistent (build_info_update build info s).1.db
unfolding build_info_update update_db
build_info_update-IsConsistent build info s h = elim (Option-cases (lookup build s.db.build_info)) [
  | inl e ↦ simp e h
  | inr (b, e) ↦ elim (Bool-cases (truthy b.test_info)) [
    | inl t ↦
        simp (e, t)
          (bind-Keeps (λ s. IsConsistent s.db) (copy_info build "packages" info)
            (λ _. copy_info build "GIT_repos" info >> (Exec.modify update_db >> pure true))
            (copy_info-Keeps build "packages" info)
            (λ _.
              bind-Keeps (λ s. IsConsistent s.db) (copy_info build "GIT_repos" info)
                (λ _. Exec.modify update_db >> pure true) (copy_info-Keeps build "GIT_repos" info)
                (λ _ s v. v))
            s h)
    | inr t ↦ simp (e, t) h
  ]
]

pub add_build_test_result-IsConsistent :
    (build : String) (r : Value) (s : Service)
    → IsConsistent s.db
    → IsConsistent (add_build_test_result build r s).db
unfolding add_build_test_result update_db
add_build_test_result-IsConsistent build r s h =
    elim (Option-cases (lookup build s.db.build_info)) [
      | inl e ↦ rw (e, add_build_test_result) h
      | inr (b, e) ↦ rw (e, add_build_test_result) (modify_build-IsConsistent build _ s h)
    ]

write_status-IsConsistent :
    (build : String) (st : Status) (s : Service)
    → IsConsistent s.db
    → IsConsistent (write_status build st s).db
unfolding write_status update_db
write_status-IsConsistent build st s h = elim (Option-cases (lookup build s.db.build_info)) [
  | inl e ↦ rw (e, write_status) h
  | inr (b, e) ↦ rw (e, write_status) (modify_build-IsConsistent build _ s h)
]

pub update_build_status-IsConsistent :
    (build : String) (st : Status) (s : Service)
    → IsConsistent s.db
    → IsConsistent (update_build_status build st s).db
unfolding update_build_status
update_build_status-IsConsistent build st s h = elim (Bool-cases (is_listed st)) [
  | inl e ↦ rw e (write_status-IsConsistent build st s h)
  | inr e ↦ rw e h
]

pub force_build_status-IsConsistent :
    (build : String) (st : Status) (s : Service)
    → IsConsistent s.db
    → IsConsistent (force_build_status build st s).1.db
unfolding force_build_status
force_build_status-IsConsistent build st s h = elim (Bool-cases (can_force st)) [
  | inl e ↦ rw e (write_status-IsConsistent build st s h)
  | inr e ↦ rw e h
]

pub update_build_test_info-IsConsistent :
    (build : String) (t : Value) (persist : Bool) (s : Service)
    → IsConsistent s.db
    → IsConsistent (update_build_test_info build t persist s).1.db
unfolding update_build_test_info update_db
update_build_test_info-IsConsistent build t true s h = modify_build-IsConsistent build _ s h
update_build_test_info-IsConsistent build t false s h = modify_build-IsConsistent build _ s h

-- Any baseline after `baseline_add` was one before or is the new one.
put_baseline-known :
    (name build k b : String) (o : Option (Dict String))
    → (elim (put_baseline name build o) [ none ↦ none | some m ↦ lookup k m ]) ≡ some b
    → (build ≡ b) ⊎ ((elim o [ none ↦ none | some m ↦ lookup k m ]) ≡ some b)
unfolding put_baseline lookup
put_baseline-known name build k b none e = ground arith
put_baseline-known name build k b (some m) e = ground (arith, lookup-insert name k build m)

pub baseline_add-IsConsistent :
    (build : String) (s : Service) → IsConsistent s.db → IsConsistent (baseline_add build s).1.db
unfolding baseline_add update_db
baseline_add-IsConsistent build s h = elim (Bool-cases (has build s.db.build_info)) [
  | inl e ↦ simp e (record {
    queue_dict = h.queue_dict;
    builds_dict = h.builds_dict;
    sound = h.sound;
    baselines_known = λ k b q. ground (
      arith,
      put_baseline-known (baseline_of (get_release build)) build k b s.db.baselines q,
      h.baselines_known k b,
    );
  })
  | inr e ↦ simp e h
]

erased-baseline :
    (name k b : String) (o : Option (Dict String))
    → (elim (map_option (erase name) o) [ none ↦ none | some m ↦ lookup k m ]) ≡ some b
    → (elim o [ none ↦ none | some m ↦ lookup k m ]) ≡ some b
erased-baseline name k b none e = e
erased-baseline name k b (some m) e = ground (arith, lookup-erase name k m)

pub baseline_del-IsConsistent :
    (name : String) (s : Service) → IsConsistent s.db → IsConsistent (baseline_del name s).db
unfolding baseline_del update_db
baseline_del-IsConsistent name s h = record {
  queue_dict = h.queue_dict;
  builds_dict = h.builds_dict;
  sound = h.sound;
  baselines_known = λ k b q. h.baselines_known k b (erased-baseline name k b s.db.baselines q);
}
